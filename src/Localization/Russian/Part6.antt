-- ===== src/Localization/Russian/Part6.antt =====
-- Lines 246 to 295 of the table `ru` of localization.js, in their order.
use mathlib.Core.List.{List, [], ◌∷◌}
use Prim.Native.String.{String}

unfoldable pub part_6 : List (String × String)
part_6 =
    ("Low Mbps", "Low-speed threshold, Mbps")
    ∷ ("History retention days", "Хранение истории, дней")
    ∷ ("Interval minutes", "Интервал, мин")
    ∷ ("Max reminder min", "Макс. интервал напоминаний, мин")
    ∷ ("Reminder schedule min", "Расписание напоминаний, мин")
    ∷ ("Group offline reminders", "Группировать напоминания об offline")
    ∷ ("Node down alerts", "Node-down алерты")
    ∷ ("Recovery alerts", "Recovery-алерты")
    ∷ ("Mute", "Mute")
    ∷ ("Unmute", "Снять mute")
    ∷ ("Test", "Тест")
    ∷ ("Dismiss", "Скрыть")
    ∷ ("Results", "Результаты")
    ∷ ("No nodes", "Нет нод")
    ∷ ("No results", "Нет результатов")
    ∷ ("no results", "нет результатов")
    ∷ ("latest successful checks", "последних успешных проверок")
    ∷ ("Failed checks", "Неуспешные проверки")
    ∷ ("Max speed", "Макс. скорость")
    ∷ ("Min speed", "Мин. скорость")
    ∷ ("Avg", "Сред.")
    ∷ ("Max", "Макс.")
    ∷ ("Min", "Мин.")
    ∷ ("Reason", "Причина")
    ∷ ("Muted", "Mute")
    ∷ ("Restore", "Restore")
    ∷ ("Choose Backup ZIP", "Выбрать ZIP-бэкап")
    ∷ ("Speed Test", "Speedtest")
    ∷ ("Speedtest", "Speedtest")
    ∷ ("Loading speed-test history…", "Загрузка speedtest history…")
    ∷ ("Loading availability history…", "Загрузка availability history…")
    ∷ ("No speed tests in this period", "За выбранный период нет результатов speedtest")
    ∷ ("No availability checks in this period", "За выбранный период нет availability checks")
    ∷ ("No availability checks", "Нет availability checks")
    ∷ (
      "Only real speed tests are plotted; gaps mean no measurement.",
      "На графике только реальные speedtest; пробелы означают отсутствие замера.",
    )
    ∷ (
      "Only real speed tests are plotted; gaps mean no measurement. Refreshing…",
      "На графике только реальные speedtest; пробелы означают отсутствие замера. Обновление…",
    )
    ∷ (
      "Only real availability checks are plotted; gaps mean no check.",
      "На графике только реальные availability checks; пробелы означают отсутствие проверки.",
    )
    ∷ (
      "Only real availability checks are plotted; gaps mean no check. Refreshing…",
      "На графике только реальные availability checks; пробелы означают отсутствие проверки. Обновление…",
    )
    ∷ ("Automatic announce", "Автоматический announce")
    ∷ ("Remnawave subscription announce", "Subscription announce в Remnawave")
    ∷ (
      "Audience-aware outage messages in the subscription response header",
      "Сообщения о недоступности с учётом audience в response header подписки",
    )
    ∷ ("Sync topology & reconcile", "Синхронизировать topology и запустить reconcile")
    ∷ ("Save settings", "Сохранить настройки")
    ∷ ("Environment gate", "Environment gate")
    ∷ ("Topology", "Topology")
    ∷ ("Last reconcile", "Последний reconcile")
    ∷ ("Enabled", "Включено")
    ∷ ("Disabled", "Отключено")
    ∷ ("Configured", "Настроено")
    ∷ ("Not loaded", "Не загружено")
    ∷ ("Never", "Никогда")
    ∷ ("Policy", "Policy")
    ∷ ("Outage minutes", "Outage, мин")
    ∷ ("Full failed checks", "Неуспешных full checks")
    ∷ ("Stable recovery minutes", "Stable recovery, мин")
    ∷ ("Availability check min", "Availability check, мин")
    ∷ ("Diagnostics refresh min", "Diagnostics refresh, мин")
    ∷ (
      "Both the duration and full-check confirmation threshold must be reached.",
      "Нужно выполнить оба условия: достигнуть минимальной длительности и набрать порог подтверждений full checks.",
    )
    ∷ ("Message constructor", "Конструктор сообщений")
    ∷ (
      "Enable the user-impact states that should keep a checker status line in the subscription announce.",
      "Включите влияющие на пользователей состояния, при которых status line от checker должна оставаться в subscription announce.",
    )
    ∷ ("One unavailable location", "Недоступна одна локация")
    ∷ ("Several unavailable locations", "Недоступно несколько локаций")
    ∷ ("All audience locations unavailable", "Недоступны все локации audience")
    ∷ ("Part of one location unavailable", "Недоступна часть одной локации")
    ∷ ("Part of several locations unavailable", "Недоступны части нескольких локаций")
    ∷ ("Everything stable", "Всё стабильно")
    ∷ ("Template", "Шаблон")
    ∷ ("Preview", "Preview")
    ∷ ("Long location-list fallback", "Fallback для длинного списка локаций")
    ∷ (
      "Long partial-location-list fallback",
      "Fallback для длинного списка частично недоступных локаций",
    )
    ∷ (
      "Used when more than three whole locations are down or the rendered location list exceeds 240 characters.",
      "Используется, когда полностью недоступно больше трёх локаций или сформированный список превышает 240 символов.",
    )
    ∷ (
      "Used when parts of more than three locations are down or the rendered partial-location list exceeds 240 characters.",
      "Используется, когда частично недоступно больше трёх локаций или сформированный список превышает 240 символов.",
    )
    ∷ ("Audience pairs", "Пары audience")
    ∷ (
      "Internal Squad determines visible Hosts; External Squad receives the message.",
      "Internal Squad определяет видимые Hosts, а External Squad получает сообщение.",
    )
    ∷ ("Add pair", "Добавить пару")
    ∷ ("Mode", "Режим")
    ∷ (
      "Mark the checker service pair as monitoring-only. It remains visible for topology checks but its External Squad is never modified.",
      "Пометьте сервисную пару checker как monitoring-only. Она останется видимой для topology checks, но checker никогда не изменит её External Squad.",
    )
    ∷ ("Announce locations", "Локации Announce")
    ∷ ("Add location", "Добавить локацию")
    ∷ (
      "The persisted identity is the location key. Servers are replaceable members of that location.",
      "Persisted identity задаётся ключом локации. Серверы — заменяемые участники этой локации.",
    )
    ∷ ("Location key", "Ключ локации")
    ∷ ("Public label", "Публичная метка")
    ∷ ("Delete location", "Удалить локацию")
    ∷ ("Checker node", "Нода checker")
    ∷ ("Checker node for location", "Нода checker для локации")
    ∷ ("Remnawave Host for location", "Remnawave Host для локации")
    ∷ ("Add server member", "Добавить сервер в локацию")
    ∷ (
      "Each member connects a checker StableID to the Remnawave Host used for audience filtering. A healthy member prevents a full location outage; a confirmed failed member uses the partial-availability scenario. Adding or replacing a member keeps the location and its Announce binding unchanged. Only nodes of your own subscription are listed: announce speaks to your subscribers about your service, so a source added from the panel takes no part in it and its outage cannot make a location partially unavailable.",
      "Каждый участник связывает StableID checker с Remnawave Host для фильтрации audience. Healthy-участник предотвращает полный outage локации, а confirmed failed member включает partial-availability scenario. Добавление или замена сервера не меняет локацию и её привязку Announce. В списке только ноды вашей подписки: announce обращается к вашим подписчикам о вашем сервисе, поэтому источник, добавленный из панели, в нём не участвует и его падение не делает локацию частично недоступной.",
    )
    ∷ ("Current announce state", "Текущее состояние announce")
    ∷ (
      "Only a status shown as managed may later be changed or removed automatically; the preserved first line remains operator-owned.",
      "Checker может автоматически изменить или удалить только status line с пометкой managed; сохранённая первая строка остаётся operator-owned.",
    )
    ∷ ("Remove", "Удалить")
    ∷ ("No audience pairs configured", "Пары audience не настроены")
    ∷ ("Unnamed", "Без имени")
    ∷ ("No subscription", "Без подписки")
    ∷ ("Select checker node", "Выберите ноду checker")
    ∷ []
