-- ===== src/Localization/Russian/Part7.antt =====
-- Lines 296 to 368 of the table `ru` of localization.js, in their order.
use mathlib.Core.List.{List, [], ◌∷◌}
use Prim.Native.String.{String}

unfoldable pub part_7 : List (String × String)
part_7 =
    ("Fetching subscriptions", "Загрузка подписок")
    ∷ ("Resolving node addresses", "Резолвинг адресов нод")
    ∷ ("Comparing with the current set", "Сравнение с текущим набором")
    ∷ ("Applying and restarting Xray", "Применение и перезапуск Xray")
    ∷ ("Finishing up", "Завершение")
    ∷ ("Working", "Обработка")
    ∷ ("Adopt current announce as base", "Принять текущий announce как базу")
    ∷ ("Forget adopted base", "Забыть принятую базу")
    ∷ (
      "Operator base adopted; the status line is written after it",
      "База оператора принята; строка статуса пишется после неё",
    )
    ∷ ("Pinned manually", "Задан вручную")
    ∷ ("Paired with", "Сопоставлен с")
    ∷ (
      "Two hosts share this address and port — choose one",
      "Два хоста с одинаковым адресом и портом — выберите нужный",
    )
    ∷ (
      "No host matches this address and port — this member is ignored",
      "Нет хоста с таким адресом и портом — member игнорируется",
    )
    ∷ ("Auto · match by address:port", "Auto · по адресу и порту")
    ∷ ("Suggest from host tags", "Подобрать по тегам хостов")
    ∷ ("Reading host tags…", "Читаю теги хостов…")
    ∷ ("Host tag", "Тег хоста")
    ∷ ("Nodes", "Ноды")
    ∷ ("Members", "Members")
    ∷ ("Add as location", "Добавить как локацию")
    ∷ ("Already a location", "Уже локация")
    ∷ (
      "No tagged hosts matched the current nodes",
      "Ни один тегированный хост не совпал с текущими нодами",
    )
    ∷ (
      "Members are added without a fixed Host: the checker pairs them by address and port on every sync.",
      "Members добавляются без фиксированного Host: checker сопоставляет их по адресу и порту на каждом sync.",
    )
    ∷ ("Select Remnawave Host", "Выберите Remnawave Host")
    ∷ ("No server members configured", "Серверы локации не настроены")
    ∷ ("No Announce locations configured", "Локации Announce не настроены")
    ∷ ("e.g. de", "например, de")
    ∷ ("Shown to users", "Показывается пользователям")
    ∷ ("Each Announce location requires a location key", "Для каждой локации Announce нужен ключ")
    ∷ ("Announce location keys must be unique", "Ключи локаций Announce должны быть уникальными")
    ∷ (
      "Each server member requires both a checker node and a Remnawave Host",
      "Для каждого сервера нужно выбрать и ноду checker, и Remnawave Host",
    )
    ∷ (
      "A checker StableID can belong to only one Announce location",
      "StableID checker может входить только в одну локацию Announce",
    )
    ∷ (
      "Each Announce location requires at least one server member",
      "В каждой локации Announce должен быть хотя бы один сервер",
    )
    ∷ (
      "No announce headers are currently tracked.",
      "Сейчас checker не отслеживает ни один announce header.",
    )
    ∷ ("Token stays in", "Token остаётся в")
    ∷ (". Required token scopes:", ". Нужные token scopes:")
    ∷ (
      "for the panel line on node cards and in Telegram.",
      "— для строки панели в карточках нод и в Telegram.",
    )
    ∷ ("Waiting for the first poll", "Ждёт первого опроса")
    ∷ ("Node telemetry", "Телеметрия нод")
    ∷ ("Panel", "Панель")
    ∷ ("Off", "Выключено")
    ∷ ("Reconnecting", "Переподключается")
    ∷ ("Not connected", "Нет связи")
    ∷ ("Disabled in panel", "Выключена в панели")
    ∷ (
      "Reconcile runs after a confirmed outage, a change in affected locations, a partial/total transition, stable recovery, or saved settings. Manual checks and the fast recovery loop do not count as outage confirmations by themselves. A confirmed failed member of an otherwise healthy location uses the partial-availability scenarios. Unknown state and probable",
      "Reconcile запускается после подтверждённого outage, изменения affected locations, перехода partial/total, stable recovery или сохранения настроек. Manual checks и fast recovery loop сами по себе не считаются подтверждениями outage. Confirmed failed member в остальном healthy location использует partial-availability scenarios. Unknown state и вероятностные",
    )
    ∷ ("incidents do not create a new message.", "инциденты не создают новое сообщение.")
    ∷ (
      "A maintenance node is evaluated by its probe result. A separate maintenance scenario is used only when every member of the location is both offline and in maintenance.",
      "Maintenance-нода оценивается по результату probe. Отдельный maintenance-сценарий используется только тогда, когда все участники локации одновременно offline и находятся на обслуживании.",
    )
    ∷ ("An existing single-line", "Существующий однострочный")
    ∷ (
      "announce stays unchanged as the base; xray-checker appends only its status line and restores the original value after recovery. A multiline value can be reclaimed only when its last suffix exactly matches the rendered target or healthy scenario. If the healthy scenario is disabled, recovery restores the base or removes a checker-only header. Other or manually changed values are never overwritten. Templates are single-line, URL-free, and limited to 240 characters after rendering.",
      "announce остаётся неизменной base-строкой; xray-checker добавляет только свою status line и после recovery восстанавливает исходное значение. Multiline-значение можно взять под управление, только если его последний suffix точно совпадает с rendered target или healthy scenario. Если healthy scenario отключён, при recovery checker восстанавливает base или удаляет header, принадлежащий только ему. Другие значения, включая изменённые вручную, никогда не перезаписываются. Шаблоны должны быть однострочными, без URL и не длиннее 240 символов после render.",
    )
    ∷ ("Single-location placeholders", "Placeholders для одной локации")
    ∷ ("Multiple-location placeholders", "Placeholders для нескольких локаций")
    ∷ ("Total-outage placeholders", "Placeholders для total outage")
    ∷ ("Partial single-location placeholders", "Placeholders для partial outage одной локации")
    ∷ (
      "Partial multiple-location placeholders",
      "Placeholders для partial outage нескольких локаций",
    )
    ∷ ("One location under maintenance", "Одна локация на обслуживании")
    ∷ ("Several locations under maintenance", "Несколько локаций на обслуживании")
    ∷ ("Maintenance single-location placeholders", "Placeholders для обслуживания одной локации")
    ∷ (
      "Maintenance multiple-location placeholders",
      "Placeholders для обслуживания нескольких локаций",
    )
    ∷ ("Healthy-state placeholders", "Placeholders для healthy state")
    ∷ ("Fallback placeholders", "Placeholders для fallback")
    ∷ ("Partial fallback placeholders", "Placeholders для partial fallback")
    ∷ (
      "Long maintenance-location-list fallback",
      "Fallback для длинного списка обслуживаемых локаций",
    )
    ∷ (
      "Used when more than three locations are fully offline under maintenance or the rendered list is too long.",
      "Используется, когда больше трёх обслуживаемых локаций полностью offline или rendered-список слишком длинный.",
    )
    ∷ ("Maintenance fallback placeholders", "Placeholders для maintenance fallback")
    ∷ ("Mixed outage and maintenance fallback", "Fallback для сочетания outage и обслуживания")
    ∷ (
      "Used when the combined outage and maintenance messages would exceed 240 characters.",
      "Используется, когда объединённые сообщения outage и обслуживания превысили бы 240 символов.",
    )
    ∷ (
      "Mixed maintenance fallback placeholders", "Placeholders для смешанного maintenance fallback",
    )
    ∷ (
      "Empty template — the server will restore the default on save",
      "Пустой шаблон — сервер восстановит значение по умолчанию при сохранении",
    )
    ∷ (
      "Scenario disabled — the owned checker status line is cleared for this state",
      "Scenario отключён — checker очищает принадлежащую ему status line для этого состояния",
    )
    ∷ ("Select Internal Squad", "Выберите Internal Squad")
    ∷ ("Select External Squad", "Выберите External Squad")
    ∷ ("Ready", "Готово")
    ∷ (
      "Configure environment variables and restart xray-checker",
      "Настройте переменные окружения и перезапустите xray-checker",
    )
    ∷ ("Managed status line", "Managed status line")
    ∷ ("Managed", "Managed")
    ∷ ("Base announce preserved", "Base announce сохранён")
    ∷ ("Unmanaged", "Unmanaged")
    ∷ (
      "Existing rwEncodeBase64 announce stays on the first line",
      "Существующий rwEncodeBase64 announce остаётся в первой строке",
    )
    ∷ ("Existing announce is left untouched", "Существующий announce не изменяется")
    ∷ (
      "Managed value is no longer present remotely",
      "Managed-значение больше не найдено в remote state",
    )
    ∷ ("Loading Remnawave settings", "Загрузка настроек Remnawave")
    ∷ ("Saving settings", "Сохранение настроек")
    ∷ (
      "Remnawave settings saved; reconciliation queued",
      "Настройки Remnawave сохранены; reconcile поставлен в очередь",
    )
    ∷ (
      "Loading topology and reconciling announce headers",
      "Загружается topology, выполняется reconcile announce headers",
    )
    ∷ (
      "Topology and announce headers reconciled",
      "Reconcile для topology и announce headers завершён",
    )
    ∷ ("Merge retired node", "Merge retired-ноды")
    ∷ (
      "Choose the active node that owns the merged history.",
      "Выберите active-ноду, которая получит объединённую историю.",
    )
    ∷ ("Close merge dialog", "Закрыть merge-диалог")
    ∷ ("Retired source", "Retired source")
    ∷ ("Active target", "Active target")
    ∷ ("Select an active node", "Выберите active-ноду")
    ∷ ("From retired node", "Из retired-ноды")
    ∷ ("Into active node", "В active-ноду")
    ∷ ("Speed results", "Результаты speedtest")
    ∷ (
      "The merge is staged now and applied on the next restart. The retired record is removed only after all persisted state loads successfully.",
      "Merge будет подготовлен сейчас и применён после следующего restart. Retired-запись удалится только после успешной загрузки всего persisted state.",
    )
    ∷ []
