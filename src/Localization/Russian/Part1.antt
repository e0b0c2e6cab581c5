-- ===== src/Localization/Russian/Part1.antt =====
-- Lines 7 to 45 of the table `ru` of localization.js, in their order.
use mathlib.Core.List.{List, [], ◌∷◌}
use Prim.Native.String.{String}

unfoldable pub part_1 : List (String × String)
part_1 =
    ("Total", "Всего")
    ∷ ("Online", "Online")
    ∷ ("Offline", "Offline")
    ∷ ("Proxy failure", "Proxy failure")
    ∷ ("Maintenance", "Обслуживание")
    ∷ ("Avg Latency", "Ср. задержка")
    ∷ ("Servers", "Серверы")
    ∷ ("Search...", "Поиск...")
    ∷ ("All", "Все")
    ∷ ("Default", "Default")
    ∷ ("Name", "Имя")
    ∷ ("Status", "Статус")
    ∷ ("Copy URL", "Копировать URL")
    ∷ ("Metrics", "Метрики")
    ∷ ("Health", "Health")
    ∷ ("Docs", "Docs")
    ∷ ("Latency ↑", "Задержка ↑")
    ∷ ("Latency ↓", "Задержка ↓")
    ∷ ("No proxies match your criteria", "Нет прокси, соответствующих условиям")
    ∷ ("of", "из")
    ∷ (
      "proxies · Config URLs return 200/503 for monitoring",
      "прокси · Config URL возвращают 200/503 для мониторинга",
    )
    ∷ ("Check:", "Check:")
    ∷ ("Interval:", "Интервал:")
    ∷ ("Timeout:", "Timeout:")
    ∷ ("Powered by", "Работает на базе")
    ∷ ("Made with ❤\u{fe0f} by", "Сделано с ❤\u{fe0f} —")
    ∷ ("Telegram Chat", "Telegram-чат")
    ∷ ("Auto", "Авто")
    ∷ ("Copied!", "Скопировано!")
    ∷ ("IP / server copied!", "IP / сервер скопирован!")
    ∷ ("Logo", "Логотип")
    ∷ ("Xray Checker Admin", "Админка Xray Checker")
    ∷ ("Availability, speed tests and operational controls", "Availability, speedtest и управление")
    ∷ ("Waiting for data", "Ожидание данных")
    ∷ ("Last updated: n/a", "Последнее обновление: n/a")
    ∷ ("Idle", "Idle")
    ∷ ("Refresh", "Обновить")
    ∷ ("Admin sections", "Разделы администрирования")
    ∷ ("Dashboard", "Dashboard")
    ∷ ("Nodes Overview", "Nodes Overview")
    ∷ ("Incidents", "Инциденты")
    ∷ ("Speed History", "Speed History")
    ∷ ("Controls", "Управление")
    ∷ ("Settings", "Настройки")
    ∷ ("Actions for selected nodes", "Действия для выбранных нод")
    ∷ ("Node controls", "Управление нодами")
    ∷ ("Global configuration and data management", "Общая конфигурация и управление данными")
    ∷ ("Global settings", "Общие настройки")
    ∷ ("Project", "Проект")
    ∷ ("Actions", "Действия")
    ∷ ("Filters", "Фильтры")
    ∷ ("Schedule", "Расписание")
    ∷ ("Backup", "Backup")
    ∷ ("Subscription", "Subscription")
    ∷ ("Agents", "Агенты")
    ∷ ("Diagnostic agents", "Диагностические агенты")
    ∷ ("Configured agents", "Настроенные агенты")
    ∷ ("Agent automation", "Автоматизация агентов")
    ∷ ("Trigger", "Триггер")
    ∷ ("Speed fallback", "Резервный Speedtest URL")
    ∷ ("Fallback attempts", "Попытки резервных URL")
    ∷ ("Cooldown", "Cooldown")
    ∷ ("Alert wait", "Ожидание для алерта")
    ∷ ("Concurrency", "Параллельные сессии")
    ∷ (
      "A failed or slow measurement starts an isolated agent probe. Its evidence is stored with that measurement and enriches the Telegram alert; it never changes status, classification, incidents, retries or Remnawave.",
      "Замер с ошибкой или ниже порога запускает изолированную пробу агента. Её свидетельство сохраняется рядом с этим замером и дополняет Telegram-алерт; статус, классификацию, incidents, retries и Remnawave оно не меняет.",
    )
    ∷ (
      "When the proxy-failure trigger is on, a node entering proxy_failure gets one agent probe per episode. The answer appears among the node's diagnostic sessions and in its Telegram down alert; it never decides whether that alert is sent.",
      "Если триггер proxy failure включён, нода, перешедшая в proxy_failure, получает одну пробу агента на эпизод. Ответ виден среди диагностических сессий ноды и в её Telegram-алерте о сбое; отправку алерта он не решает.",
    )
    ∷ ("Agent probe", "Проба агента")
    ∷ ("Open the agent probe", "Открыть пробу агента")
    ∷ ("Close agent probe", "Закрыть пробу агента")
    ∷ ("Copy", "Копировать")
    ∷ ("Copy the probe as text", "Скопировать пробу текстом")
    ∷ ("Agent probe copied!", "Проба агента скопирована!")
    ∷ ("Copy failed", "Не удалось скопировать")
    ∷ ("Measurement", "Замер")
    ∷ ("Detail", "Детали")
    ∷ ("Summary", "Сводка")
    ∷ ("MiB", "МиБ")
    ∷ ("Test URL", "Test URL")
    ∷ ("Reserve Test URL", "Резервный Test URL")
    ∷ ("Primary URL", "Основной URL")
    ∷ ("Timed out", "Таймаут")
    ∷ ("timed out", "таймаут")
    ∷ (
      "No signed observation was recorded for this probe.",
      "Подписанный observation для этой пробы не записан.",
    )
    ∷ ("Reproduced", "Воспроизвелось")
    ∷ ("Not reproduced", "Не воспроизвелось")
    ∷ ("Probing", "Проба идёт")
    ∷ ("No agent", "Нет агента")
    ∷ ("Verdict", "Вердикт")
    ∷ ("Task", "Задача")
    ∷ ("Result", "Результат")
    ∷ ("Low speed", "Низкая скорость")
    ∷ ("Technical failure", "Технический сбой")
    ∷ ("Run source", "Источник прогона")
    ∷ ("Threshold", "Порог")
    ∷ ("Measured by the run", "Измерено прогоном")
    ∷ ("Transferred by the run", "Перекачано прогоном")
    ∷ []
