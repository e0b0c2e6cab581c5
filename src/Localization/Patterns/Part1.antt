-- ===== src/Localization/Patterns/Part1.antt =====
-- Lines 473 to 518 of the list `patterns` of localization.js, in their order.
use mathlib.Core.List.{List, [], ◌∷◌}
use xray_checker_modify.Base.{Text, codes}
use xray_checker_modify.Localization.Regex.{Re, text, digits, some_dots, seq, group}

unfoldable pub patterns_1 : List (Re × Text)
patterns_1 =
    (seq (group 1 digits) (seq (text " nodes · ") (group 2 some_dots)), codes "$1 нод · $2")
    ∷ (
      seq (text "Remnawave node ")
          (seq (group 1 some_dots) (seq (text ", as of ") (group 2 some_dots))),
      codes "Нода Remnawave $1, данные на $2",
    )
    ∷ (seq (text "Not connected (") (seq (group 1 some_dots) (text ")")), codes "Нет связи ($1)")
    ∷ (
      seq (group 1 digits)
          (seq (text " online (") (seq (group 2 digits) (text " before the failure)"))),
      codes "$1 онлайн ($2 до сбоя)",
    )
    ∷ (seq (group 1 digits) (text " online"), codes "$1 онлайн")
    ∷ (seq (text "mem ") (seq (group 1 digits) (text "%")), codes "память $1%")
    ∷ (seq (text "load ") (group 1 some_dots), codes "нагрузка $1")
    ∷ (seq (text "Xray ") (seq (group 1 digits) (text " min")), codes "Xray $1 мин")
    ∷ (seq (text "Xray ") (seq (group 1 digits) (text " h")), codes "Xray $1 ч")
    ∷ (seq (text "Xray ") (seq (group 1 digits) (text " d")), codes "Xray $1 д")
    ∷ (seq (text "Last updated: ") (group 1 some_dots), codes "Последнее обновление: $1")
    ∷ (
      seq (text "Check: ") (
          seq (group 1 some_dots) (
            seq (text " · Interval: ")
              (seq (group 2 some_dots) (seq (text " · Timeout: ") (group 3 some_dots))))),
      codes "Проверка: $1 · Интервал: $2 · Таймаут: $3",
    )
    ∷ (
      seq (text "Running ") (seq (group 1 digits) (seq (text "/") (group 2 digits))),
      codes "Выполняется $1/$2",
    )
    ∷ (
      seq (group 1 digits) (
          seq (text " shown · ") (
            seq (group 2 digits)
              (seq (text " hidden by filters · ") (seq (group 3 digits) (text " with issues"))))),
      codes "Показано: $1 · скрыто фильтрами: $2 · с проблемами: $3",
    )
    ∷ (
      seq (group 1 digits)
          (seq (text " shown · ") (seq (group 2 digits) (text " hidden by filters"))),
      codes "Показано: $1 · скрыто фильтрами: $2",
    )
    ∷ (
      seq (text "Saved scope: ")
          (seq (group 1 digits) (seq (text " nodes (") (seq (group 2 some_dots) (text ")")))),
      codes "Сохранённый выбор: нод $1 ($2)",
    )
    ∷ (
      seq (text "Saved scope: ") (seq (group 1 digits) (text " nodes")),
      codes "Сохранённый выбор: нод $1",
    )
    ∷ (
      seq (text "Saved scope: all nodes matching filters (") (seq (group 1 some_dots) (text ")")),
      codes "Сохранённый выбор: все ноды по фильтрам ($1)",
    )
    ∷ (
      text "Saved scope: all nodes matching filters",
      codes "Сохранённый выбор: все ноды по фильтрам",
    )
    ∷ (
      seq (text "Selected ") (seq (group 1 digits) (text " scheduled nodes")),
      codes "Выбрано нод из расписания: $1",
    )
    ∷ (
      seq (text "Removed ")
          (seq (group 1 digits) (seq (text " diagnostic sessions for ") (group 2 some_dots))),
      codes "Удалено диагностических сессий: $1 — $2",
    )
    ∷ (seq (group 1 digits) (text " server(s) unavailable"), codes "Недоступно серверов: $1")
    ∷ (seq (group 1 digits) (text " maintenance"), codes "на обслуживании: $1")
    ∷ (
      seq (group 1 digits) (text " maintenance node(s) skipped"),
      codes "Пропущено нод на обслуживании: $1",
    )
    ∷ (seq (group 1 digits) (text " nodes checked"), codes "Проверено нод: $1")
    ∷ (
      seq (text "Low speed < ") (group 1 (seq some_dots (text " Mbps"))),
      codes "Низкая скорость < $1",
    )
    ∷ (seq (text "Select ") (group 1 some_dots), codes "Выбрать $1")
    ∷ (seq (text "Move ") (group 1 some_dots), codes "Переместить $1")
    ∷ (seq (text "Remnawave Host for ") (group 1 some_dots), codes "Remnawave Host для $1")
    ∷ (seq (text "Missing active node: ") (group 1 some_dots), codes "Active-нода отсутствует: $1")
    ∷ (seq (text "Missing: ") (group 1 some_dots), codes "Отсутствует: $1")
    ∷ (
      seq (text "Geo updated: ")
          (seq (group 1 digits) (seq (text " nodes, failed: ") (group 2 digits))),
      codes "Geo обновлён: нод $1, ошибок $2",
    )
    ∷ (
      seq (text "Updated ") (seq (group 1 digits) (seq (text " ") (group 2 some_dots))),
      codes "Обновлено: $1 $2",
    )
    ∷ (
      seq (text "No changes (")
          (seq (group 1 digits) (seq (text " ") (seq (group 2 some_dots) (text ")")))),
      codes "Без изменений ($1 $2)",
    )
    ∷ (
      seq (text "Backup verified (")
          (seq (group 1 digits) (text " files). Restart the application to apply it.")),
      codes "Бэкап проверен ($1 файлов). Перезапустите приложение для применения.",
    )
    ∷ (seq (group 1 digits) (text " nodes"), codes "$1 нод")
    ∷ (seq (group 1 digits) (text " results"), codes "$1 результатов")
    ∷ (seq (group 1 digits) (text " selected"), codes "$1 выбрано")
    ∷ (seq (group 1 digits) (text " incidents"), codes "Инцидентов: $1")
    ∷ (seq (group 1 digits) (text " muted"), codes "Mute: $1")
    ∷ (seq (group 1 digits) (text " users"), codes "$1 пользователей")
    ∷ (seq (group 1 digits) (text " successful results"), codes "$1 успешных результатов")
    ∷ (seq (group 1 digits) (text " latest results"), codes "Последних результатов: $1")
    ∷ (
      seq (group 1 digits) (text " latest results · automatic workflows paused"),
      codes "Последних результатов: $1 · автоматические процессы приостановлены",
    )
    ∷ (seq (text "Paused since ") (group 1 some_dots), codes "Приостановлено с $1")
    ∷ (
      seq
          (text
            "Automatic monitoring, alerts, scheduled updates and Remnawave writes are paused since ")
          (seq (group 1 some_dots) (text ".")),
      codes
          "Автоматический мониторинг, алерты, плановые обновления и записи Remnawave приостановлены с $1.",
    )
    ∷ (seq (text "Probe · ") (group 1 some_dots), codes "Probe · $1")
    ∷ (
      seq (group 1 digits) (text " latest results · next test in <1 min"),
      codes "Последних результатов: $1 · следующий speedtest менее чем через минуту",
    )
    ∷ (
      seq (group 1 digits)
          (seq (text " latest results · next test in ") (seq (group 2 digits) (text " min"))),
      codes "Последних результатов: $1 · следующий speedtest через $2 мин",
    )
    ∷ []
