-- ===== src/Localization/Russian/Part9.antt =====
-- Lines 416 to 469 of the table `ru` of localization.js, in their order.
use mathlib.Core.List.{List, [], ◌∷◌}
use Prim.Native.String.{String}

unfoldable pub part_9 : List (String × String)
part_9 =
    ("Findings", "Находки")
    ∷ ("No findings", "Находок нет")
    ∷ ("Matrix", "Матрица")
    ∷ ("Cannot reach it", "Не видит ноду")
    ∷ ("Evidence", "Свидетельства")
    ∷ ("Since", "С")
    ∷ ("seen once", "замечено один раз")
    ∷ ("nodes", "ноды")
    ∷ ("Reached from here", "Отсюда нода доступна")
    ∷ (
      "Cannot reach a node that is up elsewhere", "Не видит ноду, которая доступна из другой точки",
    )
    ∷ ("Down from every vantage point", "Недоступна из всех точек")
    ∷ ("No comparable answer", "Нет сопоставимого ответа")
    ∷ ("This checker", "Этот checker")
    ∷ ("Remnawave sections", "Разделы Remnawave")
    ∷ ("Locations", "Локации")
    ∷ ("Speed history period", "Период истории замеров")
    ∷ ("All", "Всё")
    ∷ ("Subscriptions", "Подписки")
    ∷ ("Subscription sources", "Источники подписок")
    ∷ ("All subscriptions", "Все подписки")
    ∷ ("Add a source", "Добавить источник")
    ∷ ("Edit source", "Изменить источник")
    ∷ ("Subscription URL", "URL подписки")
    ∷ ("Client to impersonate", "Какой клиент имитировать")
    ∷ ("Override device headers", "Переопределить заголовки устройства")
    ∷ ("Save source", "Сохранить источник")
    ∷ ("Clear form", "Очистить форму")
    ∷ ("from environment", "из окружения")
    ∷ ("Read-only", "Только чтение")
    ∷ ("Source", "Источник")
    ∷ ("Client", "Клиент")
    ∷ ("State", "Состояние")
    ∷ (
      "Sources from the environment are listed read-only: the checker starts from them and their client identity must stay as it is. Sources added here are fetched in addition, each as the client you choose. Changes apply on the next subscription refresh.",
      "Источники из окружения показаны только для чтения: checker стартует с них, и их клиентская личность должна остаться прежней. Добавленные здесь источники запрашиваются дополнительно, каждый — как выбранный клиент. Изменения применятся на следующем обновлении подписки.",
    )
    ∷ (
      "The panel ties one device slot to this value, so it stays fixed once saved. Leave empty to generate one.",
      "Панель привязывает к этому значению слот устройства, поэтому после сохранения оно не меняется. Оставьте пустым, чтобы сгенерировать.",
    )
    ∷ (
      "A source with an impersonated client occupies a device slot on the remote panel, exactly as a phone would. On a subscription limited to one device that slot is the only one, so the checker will take the place of your own device. Reuse an existing HWID to update that device instead of claiming another.",
      "Источник с имитацией клиента занимает слот устройства на удалённой панели — ровно как телефон. На подписке с лимитом в одно устройство этот слот единственный, и checker займёт место вашего клиента. Впишите HWID уже зарегистрированного устройства, чтобы обновить его, а не занять ещё один слот.",
    )
    ∷ ("No subscription sources", "Источников подписок нет")
    ∷ (
      "Subscription source saved. Refresh the subscription to apply it.",
      "Источник сохранён. Обновите подписку, чтобы он применился.",
    )
    ∷ (
      "Subscription source removed. Refresh the subscription to apply it.",
      "Источник удалён. Обновите подписку, чтобы это применилось.",
    )
    ∷ ("set your own", "задайте своё")
    ∷ ("Edit", "Изменить")
    ∷ ("Delete", "Удалить")
    ∷ ("Disable", "Выключить")
    ∷ ("Enable", "Включить")
    ∷ ("Disabled", "Выключен")
    ∷ ("Node speed-test settings", "Настройки замера для ноды")
    ∷ ("Download size, MiB", "Размер загрузки, МиБ")
    ∷ ("Low-speed threshold, Mbps", "Порог низкой скорости, Mbps")
    ∷ ("Global size", "Глобальный размер")
    ∷ ("Global threshold", "Глобальный порог")
    ∷ ("Save node settings", "Сохранить настройки ноды")
    ∷ ("Node speed-test settings saved", "Настройки замера для ноды сохранены")
    ∷ ("Node speed-test settings cleared", "Персональные настройки замера сняты")
    ∷ ("Using global settings", "Используются глобальные настройки")
    ∷ ("Custom", "Своё")
    ∷ ("MB", "МБ")
    ∷ (
      "Download size must be a positive number of megabytes",
      "Размер загрузки должен быть положительным числом мегабайт",
    )
    ∷ (
      "Low-speed threshold must not be negative",
      "Порог низкой скорости не может быть отрицательным",
    )
    ∷ (
      "Stale: the last sweep did not refresh this",
      "Устарело: последний опрос не обновил эту ячейку",
    )
    ∷ ("Last seen", "Последнее наблюдение")
    ∷ ("Last verdict", "Последний вердикт")
    ∷ (
      "Last known, not refreshed by the latest sweep",
      "Последнее известное, не обновлено последним опросом",
    )
    ∷ ("Agent", "Агент")
    ∷ ("Checker", "Checker")
    ∷ ("Streak", "Подряд")
    ∷ ("TCP reached the node", "TCP дошёл до ноды")
    ∷ ("TCP did not reach the node", "TCP не дошёл до ноды")
    ∷ ("Confirmed", "Подтверждено")
    ∷ ("Seen once, not confirmed", "Замечено один раз, не подтверждено")
    ∷ ("Every vantage point agrees", "Все точки наблюдения сходятся")
    ∷ ("No sweep results yet", "Результатов опроса ещё нет")
    ∷ ("confirmed", "подтверждено")
    ∷ ("provisional", "предварительно")
    ∷ ("offline", "не на связи")
    ∷ ("Reachability sweep", "Опрос достижимости")
    ∷ ("Starting a sweep", "Запускаю опрос")
    ∷ (
      "Sweep started; every agent is being asked about every node",
      "Опрос запущен; каждый агент опрашивается по каждой ноде",
    )
    ∷ ("Reachability sweep is disabled", "Опрос достижимости отключён")
    ∷ ("Recheck", "Перепроверить")
    ∷ ("Rechecking one node", "Перепроверяю одну ноду")
    ∷ (
      "Recheck started; every agent is being asked about this node",
      "Перепроверка запущена; каждый агент опрашивается по этой ноде",
    )
    ∷ ("agent returned no observation", "агент не вернул наблюдение")
    ∷ (
      "agent lost its own connectivity during the probe",
      "агент потерял собственную связь во время проверки",
    )
    ∷ (
      "controller had no recent result to compare",
      "у контроллера не было свежего результата для сравнения",
    )
    ∷ (
      "diagnostic job expired before the agent answered",
      "диагностическая задача истекла до ответа агента",
    )
    ∷ ("diagnostic session was cancelled", "диагностическая сессия отменена")
    ∷ []
