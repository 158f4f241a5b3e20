-- ===== src/Mock/Events/Tests.antt =====
-- A route of server-sent events, read by the client.
use httpio.Base.{◌≡◌, refl, ◌++◌, pos, List, [], ◌∷◌, none, bytes, arith}
use httpio.Stream.Sse.Deliver.{deliver}
use httpio.Mock.{handler}
use httpio.Mock.Routes.{add_sse_route}
use httpio.Mock.Events.{read_events-handler}
use httpio.Stream.Sse.{Event, EventSourceHandler, read_events}
use httpio.Stream.Sse.RoundTrip.{IsSendable, received, is_plain}
use httpio.Mock.Fixtures.{program, platform, fresh, ask, server, server_plain}

abbrev first_event : Event
first_event = record {
  id = bytes "1";
  event = bytes "message";
  data_ = bytes "{\"id\":1,\"message\":\"First event\"}";
  retry = pos 0;
}

first_event-IsSendable : IsSendable first_event
unfolding program is_plain
first_event-IsSendable = record {
  id_plain = refl;
  event_plain = refl;
  data_plain = refl;
  id_fits = omega arith;
  event_fits = omega arith;
  data_fits = omega arith;
  data_given = refl;
}

abbrev gather : EventSourceHandler (List Event)
gather = record { on_event = λ e es. (none, es ++ e ∷ []); lifecycle = none }

read_events-handler_example :
    read_events gather
      (record {
        content =
            (handler
              (add_sse_route platform (bytes "/e") (first_event ∷ first_event ∷ []) 500 server)
              fresh
              (ask (bytes "GET") (bytes "/e"))
              ([], 0)).0.body;
        failure = none;
      })
      []
    ≡ deliver gather.on_event (received first_event ∷ received first_event ∷ []) none []
read_events-handler_example =
    read_events-handler platform (bytes "/e") (first_event ∷ first_event ∷ []) 500 server fresh
      (ask (bytes "GET") (bytes "/e")) ([], 0) gather none [] server_plain
      (record { at_path = refl; with_get = refl })
      (record { unbroken = refl; unwritten = refl; flushes = refl })
      (first_event-IsSendable, (first_event-IsSendable, tt))
