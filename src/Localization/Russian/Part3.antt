-- ===== src/Localization/Russian/Part3.antt =====
-- Lines 101 to 156 of the table `ru` of localization.js, in their order.
use mathlib.Core.List.{List, [], ◌∷◌}
use Prim.Native.String.{String}

unfoldable pub part_3 : List (String × String)
part_3 =
    ("One-time agent Compose", "Одноразовый Compose агента")
    ∷ ("Copy Compose", "Копировать Compose")
    ∷ ("Refresh agents", "Обновить агентов")
    ∷ (
      "Save and start this Compose before the enrollment token expires. The token is shown only now; container restarts use the identity stored in the named volume.",
      "Сохрани и запусти этот Compose до истечения enrollment token. Токен показывается только сейчас; после рестарта контейнер использует identity из именованного volume.",
    )
    ∷ ("No diagnostic agents configured", "Диагностические агенты не настроены")
    ∷ ("Disabled by environment", "Отключено через environment")
    ∷ ("Connected", "Подключён")
    ∷ ("Enrolled", "Зарегистрирован")
    ∷ ("Revoked", "Отозван")
    ∷ ("Awaiting enrollment", "Ожидает enrollment")
    ∷ ("Enrollment expired", "Enrollment истёк")
    ∷ ("Re-enroll", "Перевыпустить enrollment")
    ∷ ("Revoke", "Отозвать")
    ∷ (
      "Replace this agent identity and issue a new one-time token?",
      "Заменить identity агента и выпустить новый одноразовый токен?",
    )
    ∷ ("Revoke this diagnostic agent?", "Отозвать этого диагностического агента?")
    ∷ (
      "Delete this revoked diagnostic agent permanently?",
      "Удалить этого отозванного диагностического агента безвозвратно?",
    )
    ∷ (
      "The saved controller identity and metadata will be removed. This cannot be undone.",
      "Сохранённые controller identity и metadata будут удалены. Это действие нельзя отменить.",
    )
    ∷ (
      "The remote Compose stack and identity volume must be removed separately.",
      "Удалённый Compose stack и identity volume нужно удалить отдельно.",
    )
    ∷ ("Diagnostic agent deleted", "Диагностический агент удалён")
    ∷ ("Remote Diagnostics", "Удалённая диагностика")
    ∷ (
      "Isolated evidence only; it does not change Availability.",
      "Только изолированные свидетельства; они не меняют Availability.",
    )
    ∷ ("Maintenance diagnostic", "Диагностика maintenance-ноды")
    ∷ ("No connected diagnostic agents", "Нет подключённых диагностических агентов")
    ∷ ("Diagnose", "Диагностика")
    ∷ ("Starting…", "Запуск…")
    ∷ ("Waiting for signed observation", "Ожидание подписанного observation")
    ∷ ("No diagnostics available", "Диагностики недоступны")
    ∷ ("Select a diagnostic to run", "Выберите вид диагностики")
    ∷ ("Current failure", "Текущий сбой")
    ∷ ("the probe that usually answers it:", "проба, которая обычно на него отвечает:")
    ∷ ("Endpoint status", "Статус endpoint")
    ∷ ("Exit IP", "Выходной IP")
    ∷ ("Download throughput", "Пропускная способность")
    ∷ ("Latency profile", "Профиль задержки")
    ∷ ("Connection stability", "Стабильность соединения")
    ∷ ("TLS handshake", "TLS handshake")
    ∷ ("DNS resolution", "Резолвинг DNS")
    ∷ (
      "Fetches the agent's status endpoint through the tunnel and checks the response code.",
      "Запрашивает status endpoint агента через туннель и проверяет код ответа.",
    )
    ∷ (
      "Compares the tunnelled exit IP with the agent's direct IP, so traffic bypassing the tunnel is caught.",
      "Сравнивает выходной IP через туннель с прямым IP агента, поэтому трафик мимо туннеля будет замечен.",
    )
    ∷ (
      "Transfers a fixed amount through the tunnel and reports the achieved rate.",
      "Передаёт фиксированный объём через туннель и сообщает достигнутую скорость.",
    )
    ∷ (
      "Repeats a short tunnelled request and reports median, p95 and jitter instead of a single sample.",
      "Повторяет короткий запрос через туннель и сообщает медиану, p95 и джиттер вместо одного замера.",
    )
    ∷ (
      "Holds one tunnelled transfer open to catch filtering that drops a session after a delay.",
      "Удерживает передачу через туннель, чтобы поймать фильтрацию, разрывающую сессию с задержкой.",
    )
    ∷ (
      "Completes a direct TLS handshake with the node's SNI, without the tunnel, to locate SNI-based interference.",
      "Выполняет прямой TLS handshake с SNI ноды, без туннеля, чтобы локализовать вмешательство по SNI.",
    )
    ∷ (
      "Resolves the node hostname through several resolvers and reports disagreement between them.",
      "Резолвит имя ноды через несколько резолверов и сообщает расхождение между ними.",
    )
    ∷ ("Reliable", "Достоверно")
    ∷ ("Unreliable", "Недостоверно")
    ∷ ("Retry", "Повторить")
    ∷ ("Download JSON", "Скачать JSON")
    ∷ ("No diagnostic summary", "Нет диагностической сводки")
    ∷ (
      "No remote diagnostic sessions for this node",
      "Для этой ноды нет удалённых диагностических сессий",
    )
    ∷ ("Select a connected diagnostic agent", "Выберите подключённого диагностического агента")
    ∷ ("Remote diagnostics started", "Удалённая диагностика запущена")
    ∷ ("Remote diagnostics cancelled", "Удалённая диагностика отменена")
    ∷ ("Clear all", "Очистить всё")
    ∷ ("Diagnostic session removed", "Диагностическая сессия удалена")
    ∷ (
      "Remove every remote diagnostic session for this node?",
      "Удалить все удалённые диагностические сессии этой ноды?",
    )
    ∷ ("No remote observations are available.", "Удалённых результатов нет.")
    ∷ ("Remote diagnostics are running.", "Диагностика выполняется.")
    ∷ (
      "The agent network failed direct connectivity control; this result is unreliable.",
      "Сеть агента не прошла direct connectivity control; результат недостоверен.",
    )
    ∷ (
      "The agent rejected the job before probing; no remote evidence was collected.",
      "Агент отклонил задание до проверки; удалённые свидетельства не собраны.",
    )
    ∷ (
      "The problem was not reproduced from another network; a local ISP, route, DNS or DPI issue is likely.",
      "Проблема не воспроизведена из другой сети; вероятна локальная проблема ISP, маршрута, DNS или DPI.",
    )
    ∷ (
      "The error was reproduced from another network; a shared configuration, server or port availability issue is likely.",
      "Ошибка воспроизведена в другой сети; вероятна общая проблема конфигурации, сервера или доступности порта.",
    )
    ∷ (
      "The outage was reproduced; the server, port, firewall or hosting network may be involved.",
      "Недоступность воспроизведена; возможна проблема сервера, порта, firewall или сети хостинга.",
    )
    ∷ (
      "The results differ without a stable pattern; there is not enough data.",
      "Результаты расходятся без устойчивого паттерна; данных недостаточно.",
    )
    ∷ (
      "The agent reproduced a failure only against its download endpoint; the alternative tunnelled endpoint worked, so an endpoint-specific problem is likely.",
      "Агент воспроизвёл сбой только на своём download-endpoint; альтернативный туннельный endpoint отработал, поэтому вероятна проблема конкретного endpoint.",
    )
    ∷ (
      "The agent reached the endpoint but returned no throughput evidence; there is not enough data to compare the low-speed result.",
      "Агент дошёл до endpoint, но не вернул данных о скорости; сравнить результат с низкой скоростью не с чем.",
    )
    ∷ (
      "Low throughput was reproduced from another network; a shared node, server or upstream capacity issue is likely.",
      "Низкая скорость воспроизведена из другой сети; вероятна общая проблема ноды, сервера или вышестоящего канала.",
    )
    ∷ (
      "The speed-test problem was not reproduced from another network; the controller route or its Test URLs are more likely involved.",
      "Проблема speedtest не воспроизведена из другой сети; скорее задействован маршрут контроллера или его Test URL.",
    )
    ∷ (
      "The speed-test problem was reproduced from another network; a shared node, server or configuration issue is likely.",
      "Проблема speedtest воспроизведена из другой сети; вероятна общая проблема ноды, сервера или конфигурации.",
    )
    ∷ ("Update Subscription", "Update Subscription")
    ∷ ("Node Test URL", "Node Test URL")
    ∷ ("Project maintenance", "Обслуживание проекта")
    ∷ ("Project maintenance active", "Обслуживание проекта включено")
    ∷ ("Monitoring active", "Мониторинг активен")
    ∷ ("Enable Project Maintenance", "Включить обслуживание проекта")
    ∷ ("Resume Project", "Возобновить проект")
    ∷ (
      "Automatic monitoring, alerts, scheduled updates and Remnawave writes are paused.",
      "Автоматический мониторинг, алерты, плановые обновления и записи Remnawave приостановлены.",
    )
    ∷ (
      "Pauses automatic monitoring, alerts, scheduled speed tests and subscription updates, without stopping Xray traffic or admin probes.",
      "Приостанавливает автоматический мониторинг, алерты, плановые speedtest и обновления подписки, не останавливая Xray-трафик и admin probes.",
    )
    ∷ (
      "Automatic monitoring is temporarily paused. Proxy traffic and service health remain available.",
      "Автоматический мониторинг временно приостановлен. Прокси-трафик и health самого сервиса остаются доступными.",
    )
    ∷ (
      "Enable project maintenance? Automatic monitoring, alerts, scheduled updates and Remnawave writes will be paused.",
      "Включить обслуживание проекта? Автоматический мониторинг, алерты, плановые обновления и записи Remnawave будут приостановлены.",
    )
    ∷ ("Enabling project maintenance", "Включение обслуживания проекта")
    ∷ ("Resuming project monitoring", "Возобновление мониторинга проекта")
    ∷ ("Project maintenance enabled", "Обслуживание проекта включено")
    ∷ ("Project monitoring resumed", "Мониторинг проекта возобновлён")
    ∷ ("Select one node", "Выберите одну ноду")
    ∷ ("Selected node URL", "URL выбранной ноды")
    ∷ ("Save Node URL", "Сохранить URL ноды")
    ∷ ("Clear", "Очистить")
    ∷ ("Run Check", "Run Check")
    ∷ ("Name, server, subscription", "Имя, сервер, подписка")
    ∷ ("Select Visible", "Выбрать видимые")
    ∷ ("Save Schedule", "Сохранить расписание")
    ∷ ("Reports", "Отчёты")
    ∷ ("Telegram Notifications", "Telegram-уведомления")
    ∷ (
      "Saving stores the nodes selected right now, the current filters and the Speed Test parameters.",
      "Сохранение записывает выбранные сейчас ноды, текущие фильтры и параметры Speedtest.",
    )
    ∷ []
