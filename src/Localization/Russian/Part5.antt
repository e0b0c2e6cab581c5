-- ===== src/Localization/Russian/Part5.antt =====
-- Lines 203 to 245 of the table `ru` of localization.js, in their order.
use mathlib.Core.List.{List, [], ◌∷◌}
use Prim.Native.String.{String}

unfoldable pub part_5 : List (String × String)
part_5 =
    ("Dates", "Даты")
    ∷ ("From", "От")
    ∷ ("To", "До")
    ∷ ("Average", "Среднее")
    ∷ ("Minimum", "Минимум")
    ∷ ("Maximum", "Максимум")
    ∷ ("Measurements", "Замеры")
    ∷ ("Normal speed", "Нормальная скорость")
    ∷ ("Below configured threshold", "Ниже заданного порога")
    ∷ ("Error or offline", "Ошибка или офлайн")
    ∷ ("Open full history", "Открыть полную историю")
    ∷ ("Last speed test", "Последний speedtest")
    ∷ ("Checks", "Проверки")
    ∷ ("Available", "Доступно")
    ∷ ("No result", "Нет результата")
    ∷ ("No speed test", "Нет speedtest")
    ∷ ("No active downtime", "Нет активного downtime")
    ∷ ("No active issue", "Нет активной проблемы")
    ∷ ("Proxy failure active", "Proxy failure активен")
    ∷ ("No current failure", "Нет текущего сбоя")
    ∷ ("Diagnostics unavailable", "Диагностика недоступна")
    ∷ ("Monitoring paused", "Мониторинг приостановлен")
    ∷ ("Refresh Overview", "Обновить обзор")
    ∷ ("Refresh Geo", "Обновить Geo")
    ∷ ("Name, server, country, subscription", "Имя, сервер, страна, подписка")
    ∷ ("IP / Server", "IP / Сервер")
    ∷ ("Copy IP / server", "Копировать IP / сервер")
    ∷ ("Open IP details", "Открыть сведения об IP")
    ∷ ("Geo match", "Совпадение Geo")
    ∷ ("Last seen", "Последняя активность")
    ∷ ("Action", "Действие")
    ∷ ("Active", "Активна")
    ∷ ("Retired", "Выведена")
    ∷ ("Delete", "Удалить")
    ∷ ("Merge", "Merge")
    ∷ ("Active nodes are managed by subscription", "Active-ноды управляются подпиской")
    ∷ ("Merge applied", "Merge применён")
    ∷ ("No nodes found", "Ноды не найдены")
    ∷ ("Match", "Совпадает")
    ∷ ("Partial", "Частично")
    ∷ ("Conflict", "Конфликт")
    ∷ ("Mismatch", "Не совпадает")
    ∷ ("Unknown", "Неизвестно")
    ∷ ("Blacklisted", "В blacklist")
    ∷ ("Geo data not loaded", "Geo-данные не загружены")
    ∷ ("Geo only", "Только geo")
    ∷ ("Geo only; the name claims no country", "Только geo; в имени страна не заявлена")
    ∷ ("From geo lookup; the name claims no country", "По geo-запросу; в имени страна не заявлена")
    ∷ ("Refresh Incidents", "Обновить инциденты")
    ∷ ("just now", "только что")
    ∷ (
      "Paused by the operator: not monitored and not alerted, only probed",
      "Приостановлены оператором: не отслеживаются и не алертят, только проверяются пробой",
    )
    ∷ ("Show nodes in maintenance", "Показать ноды на обслуживании")
    ∷ ("Hide nodes in maintenance", "Скрыть ноды на обслуживании")
    ∷ ("Hide the controls", "Скрыть панель управления")
    ∷ (
      "Filters, schedule and settings for the selected nodes",
      "Фильтры, расписание и настройки выбранных нод",
    )
    ∷ ("Listed by the subscription now", "Сейчас есть в подписке")
    ∷ (
      "Average; below it, minimum–maximum over the retained history",
      "Среднее; под ним — минимум–максимум за срок хранения истории",
    )
    ∷ (
      "For retired nodes: when the subscription last listed them",
      "Для выведенных нод: когда подписка перечисляла их в последний раз",
    )
    ∷ ("Node, subscription, cause", "Нода, подписка, причина")
    ∷ ("No incidents match the filters", "Под фильтры не попал ни один инцидент")
    ∷ (
      "Repeats of the same failure less than 30 minutes apart are shown as one row",
      "Повторы одного сбоя с разрывом меньше 30 минут показываются одной строкой",
    )
    ∷ (
      "One row per node, one cell per slice of the period. Paler is slower than the node's own best, yellow is below the low-speed threshold, red is a failed test.",
      "Одна строка на ноду, одна клетка на отрезок периода. Бледнее — медленнее лучшего результата этой ноды, жёлтая — ниже порога низкой скорости, красная — тест не прошёл.",
    )
    ∷ ("Loading every node's speed history…", "Загрузка speedtest history всех нод…")
    ∷ ("No active nodes", "Нет активных нод")
    ∷ (
      "Persisted node failures and correlated mass outages",
      "Сохранённые сбои нод и связанные массовые отказы",
    )
    ∷ ("Scope", "Scope")
    ∷ ("Affected", "Затронуто")
    ∷ ("Cause", "Причина")
    ∷ ("Started", "Начало")
    ∷ ("Duration", "Длительность")
    ∷ ("Resolved", "Закрыт")
    ∷ ("No incidents recorded", "Инциденты не зафиксированы")
    ∷ ("Refresh History", "Обновить историю")
    ∷ ("Node", "Нода")
    ∷ ("Speed Stats", "Статистика speedtest")
    ∷ ("successful results", "успешных результатов")
    ∷ ("best result", "лучший результат")
    ∷ ("slowest result", "самый медленный результат")
    ∷ ("stored measurements", "сохранённых замеров")
    ∷ ("Checked", "Время проверки")
    ∷ ("Speed", "Скорость")
    ∷ ("Downloaded", "Скачано")
    ∷ ("Source", "Источник")
    ∷ ("Error", "Ошибка")
    ∷ ("No speed test results yet", "Результатов speedtest пока нет")
    ∷ ("No results for the current filters", "Под текущие фильтры результатов нет")
    ∷ ("Select a node", "Выберите ноду")
    ∷ ("No speed history for this node", "Для этой ноды нет speedtest history")
    ∷ ("Loading", "Загрузка")
    ∷ ("Alerts", "Алерты")
    ∷ ("All Telegram", "Все Telegram-уведомления")
    ∷ ("Always", "Всегда")
    ∷ ("Concurrency", "Concurrency")
    ∷ ("Timeout sec", "Таймаут, сек")
    ∷ ("Max MiB", "Макс. МиБ")
    ∷ []
