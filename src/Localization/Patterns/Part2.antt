-- ===== src/Localization/Patterns/Part2.antt =====
-- Lines 519 to 569 of the list `patterns` of localization.js, in their order.
use mathlib.Core.List.{List, [], ◌∷◌}
use xray_checker_modify.Base.{Text, codes}
use xray_checker_modify.Localization.Regex.{
  Re, text, digits, some_dots, plus_lazy, seq, alt, opt, group, dot,
}

unfoldable pub patterns_2 : List (Re × Text)
patterns_2 =
    (
      seq (group 1 digits) (
          seq (text " latest results · next test in ")
            (seq (group 2 digits) (seq (text " h ") (seq (group 3 digits) (text " min"))))),
      codes "Последних результатов: $1 · следующий speedtest через $2 ч $3 мин",
    )
    ∷ (
      seq (group 1 digits) (
          seq (text " latest results · next test in ") (
            seq (group 2 digits) (
              seq (text " d ")
                (seq (group 3 digits) (seq (text " h ") (seq (group 4 digits) (text " min"))))))),
      codes "Последних результатов: $1 · следующий speedtest через $2 д $3 ч $4 мин",
    )
    ∷ (
      seq (group 1 digits) (seq (text " latest results · next test in ") (group 2 some_dots)),
      codes "Последних результатов: $1 · следующий speedtest через $2",
    )
    ∷ (
      seq (group 1 digits) (text " latest results · next test due now"),
      codes "Последних результатов: $1 · следующий speedtest уже должен запуститься",
    )
    ∷ (
      seq (group 1 digits) (seq (text " successful of ") (seq (group 2 digits) (text " results"))),
      codes "$1 успешных из $2 результатов",
    )
    ∷ (
      seq (group 1 digits) (
          seq (text "% available · ") (
            seq (group 2 digits)
              (seq (text " offline · ") (seq (group 3 digits) (text " muted"))))),
      codes "$1% доступно · $2 offline · $3 muted",
    )
    ∷ (
      seq (group 1 digits) (
          seq (text "% available · ") (
            seq (group 2 digits) (
              seq (text " offline · ") (
                seq (group 3 digits)
                  (seq (text " maintenance · ") (seq (group 4 digits) (text " muted"))))))),
      codes "$1% доступно · $2 offline · $3 на обслуживании · $4 muted",
    )
    ∷ (
      seq
          (group 1
            (seq digits (seq (text "% proxy healthy") (opt (seq (text " · ") (plus_lazy dot))))))
          (seq (text " · ") (
            seq (group 2 digits)
              (seq (text " maintenance") (group 3 (opt (seq (text " · ") some_dots)))))),
      codes "$1 · $2 на обслуживании$3",
    )
    ∷ (
      seq (group 1 digits)
          (seq (text " proxy failure · ") (seq (group 2 digits) (text " offline"))),
      codes "$1 proxy failure · $2 offline",
    )
    ∷ (
      seq (group 1 digits) (seq (text " shown · ") (seq (group 2 digits) (text " total"))),
      codes "$1 показано · $2 всего",
    )
    ∷ (
      seq (group 1 digits) (
          seq (text " shown · ") (
            seq (group 2 digits)
              (seq (text " active · ") (seq (group 3 digits) (text " retired"))))),
      codes "$1 показано · $2 активных · $3 выведенных",
    )
    ∷ (
      seq (group 1 digits) (
          seq (text " shown · ") (
            seq (group 2 digits) (
              seq (text " monitored · ") (
                seq (group 3 digits)
                  (seq (text " maintenance · ") (seq (group 4 digits) (text " retired"))))))),
      codes "$1 показано · $2 отслеживается · $3 на обслуживании · $4 выведено",
    )
    ∷ (
      seq (group 1 digits) (seq (text " incidents · ") (seq (group 2 digits) (text " active"))),
      codes "Инцидентов: $1 · активных: $2",
    )
    ∷ (
      seq (group 1 digits) (
          seq (text " of ") (
            seq (group 2 digits)
              (seq (text " incidents · ") (seq (group 3 digits) (text " active"))))),
      codes "Инцидентов: $1 из $2 · активных: $3",
    )
    ∷ (
      seq (group 1 digits) (
          seq (text " incidents · ") (
            seq (group 2 digits) (
              seq (text " active · ")
                (seq (group 3 digits) (seq (text " row") (opt (text "s"))))))),
      codes "Инцидентов: $1 · активных: $2 · строк: $3",
    )
    ∷ (
      seq (group 1 digits) (
          seq (text " of ") (
            seq (group 2 digits) (
              seq (text " incidents · ") (
                seq (group 3 digits) (
                  seq (text " active · ")
                    (seq (group 4 digits) (seq (text " row") (opt (text "s"))))))))),
      codes "Инцидентов: $1 из $2 · активных: $3 · строк: $4",
    )
    ∷ (seq (group 1 digits) (text " min ago"), codes "$1 мин назад")
    ∷ (seq (group 1 digits) (text " h ago"), codes "$1 ч назад")
    ∷ (seq (group 1 digits) (text " d ago"), codes "$1 д назад")
    ∷ (seq (group 1 digits) (text " total"), codes "Всего: $1")
    ∷ (seq (group 1 (opt (text "<"))) (seq (group 2 digits) (text " min")), codes "$1$2 мин")
    ∷ (
      seq (group 1 digits) (seq (text " h ") (seq (group 2 digits) (text " min"))),
      codes "$1 ч $2 мин",
    )
    ∷ (
      seq (group 1 digits) (
          seq (text " d ")
            (seq (group 2 digits) (seq (text " h ") (seq (group 3 digits) (text " min"))))),
      codes "$1 д $2 ч $3 мин",
    )
    ∷ (seq (text "in ") (group 1 some_dots), codes "через $1")
    ∷ (text "Offline · <1 min", codes "Офлайн · <1 мин")
    ∷ (seq (text "Offline · ") (seq (group 1 digits) (text " min")), codes "Офлайн · $1 мин")
    ∷ (seq (text "Proxy failure · ") (group 1 some_dots), codes "Proxy failure · $1")
    ∷ (
      seq (group 1 digits) (
          seq (text " online · ") (
            seq (group 2 digits) (
              seq (text " proxy failure · ") (
                seq (group 3 digits)
                  (seq (text " offline · ") (seq (group 4 digits) (text "% uptime"))))))),
      codes "$1 online · $2 proxy failure · $3 offline · $4% uptime",
    )
    ∷ (seq (text "No subscription") (group 1 (seq (text " · ") some_dots)), codes "Без подписки$1")
    ∷ (text "Unknown Geo data not loaded", codes "Неизвестно; Geo-данные не загружены")
    ∷ (
      seq (text "Geo only; the name claims no country ") (group 1 some_dots),
      codes "Только geo; в имени страна не заявлена; $1",
    )
    ∷ (seq (group 1 some_dots) (text " · geo"), codes "$1 · по geo")
    ∷ (
      seq (text "All ") (
          seq (group 1 digits) (
            seq (text " · Alerts ")
              (seq (group 2 digits) (seq (text " · Speed ") (group 3 digits))))),
      codes "Все $1 · Алерты $2 · Speedtest $3",
    )
    ∷ (seq (group 1 (alt (text "TCP") (text "Ping"))) (text " failed"), codes "$1: ошибка")
    ∷ (seq (group 1 (alt (text "TCP") (text "Ping"))) (text " No"), codes "$1: нет ответа")
    ∷ (seq (text "Error: ") (group 1 some_dots), codes "Ошибка: $1")
    ∷ (seq (text "Latest: ") (group 1 some_dots), codes "Последнее: $1")
    ∷ (
      seq (text "Latest availability check: ") (group 1 some_dots),
      codes "Последняя availability-проверка: $1",
    )
    ∷ (
      seq (text "Peaks above ") (seq (group 1 digits) (text " ms are pinned to the top")),
      codes "Пики выше $1 ms отмечены у верхней границы",
    )
    ∷ (
      seq (group 1 digits)
          (seq (text " of ") (seq (group 2 digits) (text " proxy checks succeeded"))),
      codes "$1 из $2 proxy checks успешны",
    )
    ∷ (
      seq (text "Uptime counts time, not checks: a node that is down is re-checked more often. ") (
          seq (group 1 digits)
            (seq (text " of ") (seq (group 2 digits) (text " proxy checks succeeded")))),
      codes
          "Uptime считается по времени, а не по числу проверок: недоступную ноду перепроверяют чаще. Успешных proxy checks: $1 из $2",
    )
    ∷ (
      seq (group 1 digits) (
          text
            " compatible active node. Name and port may differ; compare the selected target in the next step."),
      codes
          "$1 совместимая active-нода. Name и port могут отличаться; на следующем шаге сравните выбранный target.",
    )
    ∷ (
      seq (group 1 digits) (
          text
            " compatible active nodes. Name and port may differ; compare the selected target in the next step."),
      codes
          "$1 совместимых active-нод. Name и port могут отличаться; на следующем шаге сравните выбранный target.",
    )
    ∷ (
      seq (group 1 some_dots) (
          seq (text " → ") (
            seq (group 2 some_dots) (
              seq (text ". Persisted lineage and history are attached to ")
                (seq (group 3 some_dots) (text "."))))),
      codes "$1 → $2. Persisted lineage и history привязаны к $3.",
    )
    ∷ (
      seq (group 1 some_dots)
          (seq (text " → ") (seq (group 2 some_dots) (text ". Restart the service to apply it."))),
      codes "$1 → $2. Перезапустите сервис, чтобы применить merge.",
    )
    ∷ (
      seq (group 1 some_dots) (
          seq (text " → ")
            (seq (group 2 some_dots) (text ". Refresh Nodes Overview or inspect startup logs."))),
      codes "$1 → $2. Обновите «Обзор нод» или проверьте startup logs.",
    )
    ∷ (
      seq (group 1 some_dots)
          (seq (text " → ") (seq (group 2 some_dots) (text ". Restart required."))),
      codes "$1 → $2. Требуется restart.",
    )
    ∷ (
      seq (text "Delete archived node \"") (
          seq (group 1 some_dots) (
            text
              "\"?\n\nThis removes the node registry entry and saved speed-test and availability histories.")),
      codes
          "Удалить ноду «$1» из архива?\n\nБудут удалены запись node registry, speedtest history и availability history.",
    )
    ∷ (
      seq (group 1 some_dots) (text "\n\nApply this update anyway?"),
      codes "$1\n\nВсё равно применить это обновление?",
    )
    ∷ []
