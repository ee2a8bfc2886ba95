-- ===== src/Listening/Channel.antt =====
-- The callbacks of `receive` in src/subscriptions.rs: what they queue, and what they drop.
use pg_ros.Base.{
  ℕ, suc, ◌+◌, ◌%◌, ◌^◌, ◌≤◌, ◌<◌, ◌≡◌, refl, ap, ◌∙◌, sym, Bool-cases, inl, inr, some, List, [],
  ◌∷◌, ◌++◌, Text, ltb, length, length-append, arith, tests, append_assoc, append-nil,
}
use mathlib.Core.Path.{subst}
use pg_ros.Message.{Message}
use pg_ros.Encoding.Encode.{Formatter, payload, notify_limit}
use pg_ros.Listening.Receiver.{Receiver, Payload, capacity, try_send, callback, callbacks}
use pg_ros.Listening.Notices.{Part, done, kept, left_out, Part-append}

-- The counter after `n` more.
abbrev pub advance : ℕ → List Message → ℕ
advance sequence [] = sequence
advance sequence (message ∷ messages) = advance ((sequence + 1) % 2 ^ 64) messages

module _ (f : Formatter) (topic message_type : Text) where
  -- The payloads of messages that are numbered from a sequence number on.
  abbrev pub numbered : ℕ → List Message → List Payload
  numbered sequence [] = []
  numbered sequence (message ∷ messages) =
      payload f topic message_type sequence message notify_limit
      ∷ numbered ((sequence + 1) % 2 ^ 64) messages

  pub numbered-append :
      (sequence : ℕ) (ms ns : List Message)
      → numbered sequence (ms ++ ns) ≡ numbered sequence ms ++ numbered (advance sequence ms) ns
  numbered-append sequence [] ns = refl
  numbered-append sequence (m ∷ ms) ns =
      ap (λ ps. payload f topic message_type sequence m notify_limit ∷ ps)
        (numbered-append ((sequence + 1) % 2 ^ 64) ms ns)

  pub length-numbered :
      (sequence : ℕ) (ms : List Message) → length (numbered sequence ms) ≡ length ms
  length-numbered sequence [] = refl
  length-numbered sequence (m ∷ ms) = ap suc (length-numbered ((sequence + 1) % 2 ^ 64) ms)

pub advance-append :
    (sequence : ℕ) (ms ns : List Message)
    → advance sequence (ms ++ ns) ≡ advance (advance sequence ms) ns
advance-append sequence [] ns = refl
advance-append sequence (m ∷ ms) ns = advance-append ((sequence + 1) % 2 ^ 64) ms ns

-- What callbacks change: the queue grows by a part of the payloads within its capacity, each message
-- is queued or counted as dropped, and the rest of the state stays.
pub record Heard (before after : Receiver) (payloads : List Payload) (sequence : ℕ) : Type 0 where
  pub added : List Payload
  pub queued : after.queue ≡ before.queue ++ added
  pub part : Part added payloads
  pub bounded : length after.queue ≤ capacity
  pub counted :
      before.dropped + length payloads < 2 ^ 64
      → length added + after.dropped ≡ length payloads + before.dropped
  pub numbers : after.sequence ≡ sequence
  pub same_subscription : after.subscription ≡ before.subscription
  pub same_errors : after.encoding_errors ≡ before.encoding_errors
  pub fits :
      length before.queue + length payloads ≤ capacity
      → (added ≡ payloads) × (after.dropped ≡ before.dropped)

-- One callback, then others.
Heard-then :
    {r r1 r2 : Receiver} {p : Payload} {ps : List Payload} {s1 s2 : ℕ}
    → Heard r r1 (p ∷ []) s1
    → Heard r1 r2 ps s2
    → Heard r r2 (p ∷ ps) s2
Heard-then {r} {r1} {r2} {p} {ps} a b = record {
  added = a.added ++ b.added;
  queued = b.queued ∙ ap (λ q. q ++ b.added) a.queued ∙ append_assoc r.queue a.added b.added;
  part = Part-append a.part b.part;
  bounded = b.bounded;
  counted = λ l.
      let one = a.counted (omega (arith, l)) in
      let rest = b.counted (omega (arith, l, one)) in
      omega (arith, one, rest, length-append a.added b.added);
  numbers = b.numbers;
  same_subscription = b.same_subscription ∙ a.same_subscription;
  same_errors = b.same_errors ∙ a.same_errors;
  fits = λ l.
      let one = a.fits (omega (arith, l)) in
      let size : length r1.queue ≡ length r.queue + 1 =
        ap length a.queued
        ∙ length-append r.queue a.added
        ∙ ap (λ (q : List Payload). length r.queue + length q) one.0 in
      let rest = b.fits (omega (arith, l, size)) in (rw (one.0, rest.0) refl, rest.1 ∙ one.1);
}

module _ (f : Formatter) (topic message_type : Text) where
  callback-Heard :
      (m : Message) (r : Receiver)
      → length r.queue ≤ capacity
      → Heard r
          (callback f topic message_type m r)
          (payload f topic message_type r.sequence m notify_limit ∷ [])
          ((r.sequence + 1) % 2 ^ 64)
  unfolding callback try_send
  callback-Heard m r h = elim (Bool-cases (ltb (length r.queue) capacity)) [
    | inl room ↦ rw room (record {
      added = payload f topic message_type r.sequence m notify_limit ∷ [];
      queued = refl;
      part = kept done;
      bounded = omega (tests, room, length-append r.queue (_ ∷ []));
      counted = λ l. omega arith;
      numbers = refl;
      same_subscription = refl;
      same_errors = refl;
      fits = λ l. (refl, refl);
    })
    | inr full ↦ rw full (record {
      added = [];
      queued = sym (append-nil r.queue);
      part = left_out done;
      bounded = h;
      counted = λ l. omega (arith, l);
      numbers = refl;
      same_subscription = refl;
      same_errors = refl;
      fits = λ l. absurd (ground (arith, full, l));
    })
  ]

  -- The callbacks of a spin queue a part of the payloads, in order, within the queue's capacity, and
  -- count the others as dropped; if there is room for all of them, none is dropped.
  pub callbacks-Heard :
      (ms : List Message) (r : Receiver)
      → length r.queue ≤ capacity
      → Heard r
          (callbacks f topic (some message_type) ms r)
          (numbered f topic message_type r.sequence ms)
          (advance r.sequence ms)
  unfolding callbacks
  callbacks-Heard [] r h = record {
    added = [];
    queued = sym (append-nil r.queue);
    part = done;
    bounded = h;
    counted = λ l. refl;
    numbers = refl;
    same_subscription = refl;
    same_errors = refl;
    fits = λ l. (refl, refl);
  }
  callbacks-Heard (m ∷ ms) r h =
      let one = callback-Heard m r h in
      let rest = callbacks-Heard ms (callback f topic message_type m r) one.bounded in
      Heard-then one (
        subst
          (λ s.
            Heard (callback f topic message_type m r)
              (callbacks f topic (some message_type) ms (callback f topic message_type m r))
              (numbered f topic message_type s ms) (advance s ms))
          one.numbers rest)
