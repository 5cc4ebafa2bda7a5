-- ===== src/Messaging/Kafka/Closing.antt =====
-- core/messaging/kafka/kafka.go, Close: one walk over all that is open.
use muto.Prelude.{◌≡◌, refl, String, Option, none, some, List, [], ◌∷◌, ◌++◌, arith}
use muto.Prelude.Dict.{Dict}
use muto.Messaging.Kafka.{Sarama, KafkaBus, Error, close_failed, close, close_partitions}

-- What Close closes.
pub data Target (K P : Type 0) : Type 0 where
  partition : P → Target K P
  connection : K → Target K P

abbrev pub targets_of : {K P : Type 0} → Dict P → List (Target K P)
targets_of [] = []
targets_of ((key, pc) ∷ rest) = partition pc ∷ targets_of rest

-- Every subscription's consumer, and the two connections last.
abbrev pub targets : {K P : Type 0} → KafkaBus K P → List (Target K P)
targets b = targets_of b.subscriptions ++ (connection b.producer ∷ connection b.consumer ∷ [])

abbrev pub noted : Option String → List String → List String
noted none errs = errs
noted (some e) errs = e ∷ errs

abbrev pub reported : List String → Option Error
reported [] = none
reported (e ∷ errs) = some (close_failed (e ∷ errs))

module _ {W K P M : Type 0} (sarama : Sarama W K P M) where
  abbrev pub close_target : W → Target K P → W × Option String
  close_target w (partition pc) = sarama.close_partition w pc
  close_target w (connection k) = sarama.close w k

  -- Each target is closed once, in order, whatever went wrong before; all errors are kept.
  abbrev pub close_each : W → List (Target K P) → W × List String
  close_each w [] = (w, [])
  close_each w (t ∷ ts) =
      let (w', failure) = close_target w t in
      let (w'', errs) = close_each w' ts in (w'', noted failure errs)

  close_partitions-each :
      (w : W) (m : Dict P) (ts : List (Target K P))
      → close_each w (targets_of m ++ ts) ≡ (
        (close_each (close_partitions sarama w m).0 ts).0,
        (close_partitions sarama w m).1 ++ (close_each (close_partitions sarama w m).0 ts).1,
      )
  unfolding close_partitions
  close_partitions-each w [] ts = refl
  close_partitions-each w ((key, pc) ∷ rest) ts =
      ground (arith, close_partitions-each (sarama.close_partition w pc).0 rest ts)

  -- Close makes the same calls in the same order as one walk over every subscription's consumer, the
  -- producer and the consumer, which no error ends; its own error lists all of theirs, and is absent
  -- exactly when there is none. No subscription stays.
  close-each :
      (w : W) (b : KafkaBus K P)
      → close sarama w b ≡ (
        (close_each w (targets b)).0,
        record b { subscriptions = [] },
        reported (close_each w (targets b)).1,
      )
  unfolding close
  close-each w b = ground (
    arith,
    close_partitions-each w b.subscriptions (connection b.producer ∷ connection b.consumer ∷ []),
  )
