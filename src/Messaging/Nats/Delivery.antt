-- ===== src/Messaging/Nats/Delivery.antt =====
-- core/messaging/nats/nats.go and platform/k8s/eventwatcher.go: messages on their way to a watcher's
-- handler.
use muto.Prelude.{◌≡◌, refl, String, Option, none, some, List, [], ◌∷◌, arith}
use muto.Messaging.{MsgHandler, EventHandler, EventWatcher, on_message}
use muto.Messaging.Nats.{Nats, deliver}

module _ {W C J U M : Type 0} (nats : Nats W C J U M) where
  -- The server alone: each message is refused if its answer is an error, and acknowledged if not.
  abbrev pub settle_all : W → List M → List (Option String) → W
  settle_all w [] failures = w
  settle_all w (m ∷ ms) [] = w
  settle_all w (m ∷ ms) (some e ∷ failures) = settle_all (nats.nak w m).0 ms failures
  settle_all w (m ∷ ms) (none ∷ failures) = settle_all (nats.ack w m).0 ms failures

module _ {W C J U M S : Type 0} (nats : Nats W C J U M) where
  -- The messages of a subscription, one after another.
  abbrev pub deliver_all : MsgHandler S M → W → List M → S → W × S
  deliver_all handler w [] s = (w, s)
  deliver_all handler w (m ∷ ms) s =
      let (w', s') = deliver nats handler w m s in deliver_all handler w' ms s'

  -- The handler alone, called with the tenant's id on each message in order; its answers.
  abbrev pub handle_all : EventHandler S M → String → List M → S → S × List (Option String)
  handle_all handler tenant_id [] s = (s, [])
  handle_all handler tenant_id (m ∷ ms) s =
      let (s', failure) = handler tenant_id (nats.subject m) m s in
      let (s'', failures) = handle_all handler tenant_id ms s' in (s'', failure ∷ failures)

  -- The messages that reach an event watcher over NATS run its handler once each, in order, with its
  -- tenant's id; each is refused if the handler returned an error for it, and acknowledged if not,
  -- and a refusal stops nothing.
  pub deliver_all-settled :
      (handler : EventHandler S M) (watcher : EventWatcher) (w : W) (ms : List M) (s : S)
      → deliver_all (on_message handler watcher) w ms s ≡ (
        settle_all nats w ms (handle_all handler watcher.tenant_id ms s).1,
        (handle_all handler watcher.tenant_id ms s).0,
      )
  unfolding deliver on_message
  deliver_all-settled handler watcher w [] s = refl
  deliver_all-settled handler watcher w (m ∷ ms) s =
      let (s', failure) = handler watcher.tenant_id (nats.subject m) m s in
      ground (
        arith,
        deliver_all-settled handler watcher (nats.nak w m).0 ms s',
        deliver_all-settled handler watcher (nats.ack w m).0 ms s',
      )
