-- ===== src/Localization/Russian/Part4.antt =====
-- Lines 157 to 202 of the table `ru` of localization.js, in their order.
use mathlib.Core.List.{List, [], ◌∷◌}
use Prim.Native.String.{String}

unfoldable pub part_4 : List (String × String)
part_4 =
    ("Restore saved scope", "Восстановить сохранённый выбор")
    ∷ ("Saved scope: none", "Сохранённый выбор: нет")
    ∷ ("Speed test", "Speedtest")
    ∷ (
      "The schedule applies to the selected nodes, current filters and Speed Test parameters.",
      "Расписание применяется к выбранным нодам, текущим фильтрам и параметрам Speedtest.",
    )
    ∷ ("History", "История")
    ∷ ("History retention", "Хранение истории")
    ∷ ("Save History Settings", "Сохранить настройки истории")
    ∷ (
      "The same retention period applies to Speedtest and Availability history for every node.",
      "Один срок хранения применяется к истории Speedtest и Availability всех нод.",
    )
    ∷ (
      "Sensitive Telegram values are read from environment variables only.",
      "Чувствительные значения Telegram читаются только из переменных окружения.",
    )
    ∷ ("Time zone", "Часовой пояс")
    ∷ ("Server time", "Время сервера")
    ∷ (
      "Every time the bot prints — alerts, reports, mute expiry — is shown in this zone. Server time keeps the checker's own zone, which is UTC unless the container sets one.",
      "Всё время, которое печатает бот — алерты, отчёты, окончание тишины — показывается в этом поясе. «Время сервера» оставляет собственный пояс checker-а: это UTC, если контейнеру не задан другой.",
    )
    ∷ ("Bot token", "Bot token")
    ∷ ("Chat", "Чат")
    ∷ ("Topic", "Топик")
    ∷ ("Admins", "Администраторы")
    ∷ ("Not set", "Не задано")
    ∷ ("Availability alerts", "Availability-алерты")
    ∷ ("Speed reports", "Speedtest-отчёты")
    ∷ ("Report mode", "Режим отчёта")
    ∷ ("Report rows", "Строк в отчёте")
    ∷ ("Save Telegram", "Сохранить Telegram")
    ∷ ("Bot commands", "Команды бота")
    ∷ ("Automatic Backups", "Автоматические бэкапы")
    ∷ ("Download Backup", "Скачать бэкап")
    ∷ ("Restore on Restart", "Восстановить при перезапуске")
    ∷ ("One archive is created per UTC day in", "Один архив в сутки по UTC создаётся в")
    ∷ (
      ". Archives older than 7 days and files beyond the newest 7 are removed automatically.",
      ". Архивы старше 7 дней и файлы сверх 7 последних удаляются автоматически.",
    )
    ∷ (
      "Download persisted settings, node statistics and speed-test history as a ZIP archive. Environment variables, generated Xray configuration, geo files and Telegram credentials are excluded.",
      "Скачать сохранённые настройки, статистику нод и историю speedtest в ZIP-архиве. Переменные окружения, сгенерированный Xray config, geo-файлы и Telegram credentials в бэкап не входят.",
    )
    ∷ (
      "Upload an Xray Checker backup. It will be verified and applied on the next application restart. Files missing from the archive will be removed during restoration.",
      "Загрузить бэкап Xray Checker. Он пройдёт валидацию и будет применён при следующем restart приложения. Файлы, которых нет в архиве, будут удалены во время restore.",
    )
    ∷ ("Overview", "Обзор")
    ∷ ("Servers online", "Серверов онлайн")
    ∷ ("Avg speed", "Средняя скорость")
    ∷ ("Failures", "Сбои")
    ∷ ("Nodes", "Ноды")
    ∷ ("Select all visible nodes", "Выбрать все видимые ноды")
    ∷ ("Node ordering", "Порядок нод")
    ∷ ("Default order", "Исходный порядок")
    ∷ ("Manual order", "Ручной порядок")
    ∷ ("Location", "Локация")
    ∷ ("Latency", "Задержка")
    ∷ ("Ascending", "По возрастанию")
    ∷ ("Descending", "По убыванию")
    ∷ ("Problems first", "Сначала проблемные")
    ∷ ("Healthy first", "Сначала исправные")
    ∷ ("Reset manual order", "Сбросить ручной порядок")
    ∷ (
      "Drag to reorder. Use arrow keys to move.",
      "Перетащите для изменения порядка. Для перемещения используйте стрелки.",
    )
    ∷ ("Check", "Check")
    ∷ ("Run", "Run")
    ∷ ("Running…", "Выполняется…")
    ∷ ("Resume", "Возобновить")
    ∷ ("Saving…", "Сохранение…")
    ∷ ("Mute Selected", "Mute выбранных")
    ∷ ("Cancelling…", "Отмена…")
    ∷ ("Cancelled", "Отменено")
    ∷ ("Not checked yet", "Ещё не проверялась")
    ∷ ("Measured during maintenance", "Замер во время обслуживания")
    ∷ ("Observation", "Наблюдение")
    ∷ ("Observation mode", "Режим наблюдения")
    ∷ ("Full", "Полный")
    ∷ ("Availability only", "Только доступность")
    ∷ ("Paused", "Приостановлен")
    ∷ ("Unlisted", "Не публикуется")
    ∷ ("Node name", "Имя ноды")
    ∷ ("Displayed name", "Отображаемое имя ноды")
    ∷ ("Save name", "Сохранить имя")
    ∷ ("Reset", "Сбросить")
    ∷ ("Select exactly one node", "Выберите ровно одну ноду")
    ∷ ("Name from the subscription", "Имя из подписки")
    ∷ ("From the subscription", "Из подписки")
    ∷ ("Node name saved", "Имя ноды сохранено")
    ∷ ("Node name reset to the subscription name", "Имя ноды сброшено на имя из подписки")
    ∷ ("No successful checks in this period", "За этот период нет успешных проверок")
    ∷ ("No successful measurements in this period", "За этот период нет успешных замеров")
    ∷ ("Keep off the public status page", "Не показывать на публичной странице статуса")
    ∷ (
      "Measured, counted and published like your own subscription. The bot and the incident journal stay about your own nodes.",
      "Измеряется, учитывается и публикуется как собственная подписка. Бот и журнал инцидентов остаются только о своих нодах.",
    )
    ∷ (
      "Checked and counted as usual, but scheduled speed tests skip it.",
      "Проверяется и учитывается как обычно, но плановый speedtest её пропускает.",
    )
    ∷ (
      "Nodes stay listed and probed, but nothing is counted: no downtime, no incidents, no alerts, no speed tests.",
      "Ноды остаются в списке и проверяются, но ничего не учитывается: ни downtime, ни инциденты, ни алерты, ни speedtest.",
    )
    ∷ (
      "Silence changes nothing that is measured, only what is announced. Keeping a source off the status page also removes its nodes from Prometheus and from their own /config endpoints — somebody else's panel is not the service you publish as your own.",
      "Тишина не меняет того, что измеряется, — только то, о чём сообщается. Скрытие источника со страницы статуса также убирает его ноды из Prometheus и из собственных /config-эндпоинтов: чужая панель — не тот сервис, который вы публикуете как свой.",
    )
    ∷ ("Stopping the speed test…", "Останавливаем speedtest…")
    ∷ ("Speed test cancelled", "Speedtest отменён")
    ∷ ("Stopping the availability check…", "Останавливаем проверку доступности…")
    ∷ ("Availability check cancelled", "Проверка доступности отменена")
    ∷ ("Unmute Selected", "Снять mute с выбранных")
    ∷ ("Only issues", "Только проблемы")
    ∷ ("Sort", "Сортировка")
    ∷ ("Search", "Поиск")
    ∷ ("No nodes match filters", "Нет нод, соответствующих фильтрам")
    ∷ ("Protocol", "Протокол")
    ∷ ("Country", "Страна")
    ∷ ("Availability", "Доступность")
    ∷ ("Status since", "Статус с")
    ∷ ("Down since", "Offline с")
    ∷ ("Failure", "Сбой")
    ∷ ("Measured speed", "Измеренная скорость")
    ∷ ("Availability latency", "Задержка availability")
    ∷ []
