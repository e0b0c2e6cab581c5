-- ===== src/Localization/Russian/Part8.antt =====
-- Lines 369 to 415 of the table `ru` of localization.js, in their order.
use mathlib.Core.List.{List, [], ◌∷◌}
use Prim.Native.String.{String}

unfoldable pub part_8 : List (String × String)
part_8 =
    ("Merge staged successfully", "Merge успешно подготовлен")
    ∷ (
      "Restart the service to apply it. After restart, Nodes Overview will verify the target lineage and show a completed confirmation.",
      "Перезапустите сервис, чтобы применить merge. После restart раздел «Обзор нод» проверит target lineage и покажет подтверждение завершения.",
    )
    ∷ ("Changed identity fields", "Изменившиеся identity fields")
    ∷ ("Identity check", "Проверка identity")
    ∷ ("Name and port are unchanged.", "Name и port не изменились.")
    ∷ ("Removed nodes:", "Удаляемые ноды:")
    ∷ ("Cancel", "Отмена")
    ∷ ("Review merge", "Проверить merge")
    ∷ ("Back", "Назад")
    ∷ ("Stage merge", "Подготовить merge")
    ∷ ("Done", "Готово")
    ∷ ("Timeout", "Таймаут")
    ∷ ("TLS error", "Ошибка TLS")
    ∷ ("Connection refused", "Соединение отклонено")
    ∷ ("Connection reset", "Соединение сброшено")
    ∷ ("DNS error", "Ошибка DNS")
    ∷ ("No response", "Нет ответа")
    ∷ ("Failed", "Ошибка")
    ∷ ("Below threshold", "Ниже порога")
    ∷ ("Successful", "Успешно")
    ∷ ("Reserve Test URL", "Резервный Test URL")
    ∷ ("All systems operational", "Все системы работают штатно")
    ∷ ("All monitored systems operational", "Все отслеживаемые системы работают штатно")
    ∷ ("Checking…", "Проверка…")
    ∷ ("Close details", "Закрыть подробности")
    ∷ ("Open details", "Открыть подробности")
    ∷ ("Select exactly one node", "Выберите ровно одну ноду")
    ∷ ("Unsaved changes", "Есть несохранённые изменения")
    ∷ ("Custom URL active", "Используется пользовательский URL")
    ∷ ("Using global Test URL", "Используется глобальный Test URL")
    ∷ ("Updating", "Обновление")
    ∷ ("Update blocked", "Обновление заблокировано")
    ∷ ("Select at least one node", "Выберите хотя бы одну ноду")
    ∷ ("Selected nodes are in maintenance", "Выбранные ноды находятся в режиме обслуживания")
    ∷ ("Node availability checked", "Доступность ноды проверена")
    ∷ ("Node Test URL saved", "Test URL ноды сохранён")
    ∷ ("Node Test URL cleared", "Test URL ноды очищен")
    ∷ ("Schedule saved", "Расписание сохранено")
    ∷ ("History settings saved", "Настройки истории сохранены")
    ∷ ("Telegram settings saved", "Настройки Telegram сохранены")
    ∷ ("Backup download started", "Скачивание бэкапа начато")
    ∷ ("Verifying backup...", "Проверка бэкапа...")
    ∷ ("Telegram test message sent", "Тестовое сообщение Telegram отправлено")
    ∷ ("Enabling maintenance", "Включение режима обслуживания")
    ∷ ("Resuming monitoring", "Возобновление мониторинга")
    ∷ ("Maintenance enabled", "Режим обслуживания включён")
    ∷ ("Monitoring resumed", "Мониторинг возобновлён")
    ∷ ("due now", "уже пора")
    ∷ ("Latest measurement:", "Последний замер:")
    ∷ ("Choose both start and end dates", "Укажите обе даты: начало и конец")
    ∷ (
      "Start date must be before or equal to end date",
      "Дата начала должна быть раньше даты окончания или совпадать с ней",
    )
    ∷ ("Speed-test history in Mbps", "История speedtest в Mbps")
    ∷ ("Speed chart period", "Период графика скорости")
    ∷ ("Availability history in milliseconds", "История availability в миллисекундах")
    ∷ ("Availability chart period", "Период графика availability")
    ∷ ("Chart metric", "Метрика графика")
    ∷ ("Speed:", "Скорость:")
    ∷ ("Latency:", "Задержка:")
    ∷ ("Downloaded:", "Скачано:")
    ∷ ("Result:", "Результат:")
    ∷ ("Muted all", "Mute: всё")
    ∷ ("Muted alerts", "Mute: алерты")
    ∷ ("Muted speed", "Mute: speedtest")
    ∷ ("Clear visible node selection", "Очистить выбор видимых нод")
    ∷ ("No active nodes to refresh", "Нет активных нод для обновления")
    ∷ ("Refreshing Geo", "Обновление Geo")
    ∷ ("Node merge completed successfully", "Node merge успешно завершён")
    ∷ ("Node merge is staged", "Node merge подготовлен")
    ∷ ("Node merge status needs verification", "Статус node merge требует проверки")
    ∷ ("Source node not found", "Source-нода не найдена")
    ∷ ("Only a retired node can be merged", "Merge доступен только для retired-ноды")
    ∷ (
      "No compatible active node found (subscription, protocol and server must match)",
      "Не найдена совместимая active-нода (subscription, protocol и server должны совпадать)",
    )
    ∷ (
      "Choose the active node that should own the retired history.",
      "Выберите active-ноду, которая получит history retired-ноды.",
    )
    ∷ ("Preparing preview", "Подготовка preview")
    ∷ (
      "Review the exact source, target and merged counters before staging.",
      "Перед staging проверьте точные source, target и итоговые counters.",
    )
    ∷ ("Staging merge", "Подготовка merge")
    ∷ ("The selected merge is safely staged.", "Выбранный merge безопасно подготовлен.")
    ∷ (
      "Node merge staged; restart the application to apply it",
      "Node merge подготовлен; перезапустите приложение для применения",
    )
    ∷ ("Node not found", "Нода не найдена")
    ∷ (
      "Active nodes are managed by subscription and cannot be deleted",
      "Active-ноды управляются подпиской, поэтому удалить их нельзя",
    )
    ∷ ("Deleting node", "Удаление ноды")
    ∷ ("All subscriptions", "Все подписки")
    ∷ ("No changes", "Без изменений")
    ∷ ("Apply this update anyway?", "Всё равно применить это обновление?")
    ∷ (
      "Restore this backup on the next application restart?\n\nCurrent persisted data will be replaced.",
      "Восстановить этот бэкап при следующем перезапуске приложения?\n\nТекущие сохранённые данные будут заменены.",
    )
    ∷ ("Switch language", "Переключить язык")
    ∷ ("Reachability", "Достижимость")
    ∷ (
      "What each probe agent sees, next to what this checker sees",
      "Что видит каждый probe-агент рядом с тем, что видит сам checker",
    )
    ∷ ("Sweep now", "Опросить сейчас")
    ∷ ("Sweep", "Опрос")
    ∷ ("Interval", "Интервал")
    ∷ ("Last sweep", "Последний опрос")
    ∷ ("Confirmed findings", "Подтверждённые находки")
    ∷ ("Running now", "Идёт сейчас")
    ∷ (
      "A vantage point becomes a finding only after it fails to reach a live node twice in a row. One observation is a sample, not a fault.",
      "Точка наблюдения становится находкой, только если она дважды подряд не смогла достучаться до живой ноды. Одно наблюдение — это выборка, а не сбой.",
    )
    ∷ []
