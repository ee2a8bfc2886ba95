-- ===== src/Messages/Mailbox.antt =====
-- src/messages.rs: `Mailbox` and the callback of `subscribe` that fills it. What `json::payload` returns
-- for a message at a sequence number is a parameter.
use pg_ros.Base.{
  ℕ, suc, ◌+◌, ◌%◌, ◌^◌, ◌<◌, ◌≡◌, refl, ap, ◌∙◌, Option, none, some, List, [], ◌∷◌, ◌++◌, length,
  Text, Result, ok, err, arith,
}

-- `struct Mailbox`
pub record Mailbox : Type 0 where
  pub sequence : ℕ
  pub pending : Option (ℕ × Text)
  pub error : Option Text

-- `Mailbox::default()`
abbrev pub empty_mailbox : Mailbox
empty_mailbox = record { sequence = 0; pending = none; error = none }

-- The arms on what `json::payload` returned.
unfoldable pub store : Result Text Text → Mailbox → Mailbox
store (ok payload) state = record state { pending = some (state.sequence, payload) }
store (err e) state = record state { error = some e }

next_number : (s n : ℕ) → s ≡ n → suc n < 2 ^ 64 → (s + 1) % 2 ^ 64 ≡ suc n
next_number s n e h = omega (arith, e, h)

module _ {M : Type 0} (payload_of : M → ℕ → Result Text Text) where
  -- The callback, for one message. The sequence number is a `u64`.
  unfoldable pub deliver : M → Mailbox → Mailbox
  deliver message state =
      let sequence = (state.sequence + 1) % 2 ^ 64 in
      store (payload_of message sequence) (record state { sequence = sequence })

  abbrev pub deliver_all : List M → Mailbox → Mailbox
  deliver_all [] state = state
  deliver_all (message ∷ messages) state = deliver_all messages (deliver message state)

  -- None of the messages can be encoded, the first of them at number `n`.
  abbrev pub NoneEncodes : ℕ → List M → Type 0
  NoneEncodes n [] = Unit
  NoneEncodes n (message ∷ messages) =
      ((e : Text) × (payload_of message n ≡ err e)) × NoneEncodes (suc n) messages

  store-sequence :
      (r : Result Text Text) (state : Mailbox) → (store r state).sequence ≡ state.sequence
  unfolding store
  store-sequence (ok p) state = refl
  store-sequence (err e) state = refl

  deliver-sequence :
      (message : M) (state : Mailbox) (n : ℕ)
      → state.sequence ≡ n
      → suc n < 2 ^ 64
      → (deliver message state).sequence ≡ suc n
  unfolding deliver
  deliver-sequence message state n e h = store-sequence _ _ ∙ omega (arith, e, h)

  deliver_all-sequence :
      (messages : List M) (state : Mailbox) (n : ℕ)
      → state.sequence ≡ n
      → n + length messages < 2 ^ 64
      → (deliver_all messages state).sequence ≡ n + length messages
  deliver_all-sequence [] state n e h = omega (arith, e)
  deliver_all-sequence (m ∷ ms) state n e h =
      deliver_all-sequence ms (deliver m state) (suc n)
        (deliver-sequence m state n e (omega (arith, h))) (omega (arith, h))
      ∙ omega arith

  deliver_all-append :
      (ms ns : List M) (state : Mailbox)
      → deliver_all (ms ++ ns) state ≡ deliver_all ns (deliver_all ms state)
  deliver_all-append [] ns state = refl
  deliver_all-append (m ∷ ms) ns state = deliver_all-append ms ns (deliver m state)

  deliver-ok :
      (message : M) (state : Mailbox) (n : ℕ) (payload : Text)
      → state.sequence ≡ n
      → suc n < 2 ^ 64
      → payload_of message (suc n) ≡ ok payload
      → (deliver message state).pending ≡ some (suc n, payload)
  unfolding deliver store
  deliver-ok message state n payload e h found =
      let numbered : (state.sequence + 1) % 2 ^ 64 ≡ suc n = next_number state.sequence n e h in
      rw (numbered, found)

  deliver-err :
      (message : M) (state : Mailbox) (n : ℕ) (x : Text)
      → state.sequence ≡ n
      → suc n < 2 ^ 64
      → payload_of message (suc n) ≡ err x
      → (deliver message state).pending ≡ state.pending
  unfolding deliver store
  deliver-err message state n x e h found =
      let numbered : (state.sequence + 1) % 2 ^ 64 ≡ suc n = next_number state.sequence n e h in
      rw (numbered, found)

  deliver_all-pending :
      (messages : List M) (state : Mailbox) (n : ℕ)
      → state.sequence ≡ n
      → n + length messages < 2 ^ 64
      → NoneEncodes (suc n) messages
      → (deliver_all messages state).pending ≡ state.pending
  deliver_all-pending [] state n e h k = refl
  deliver_all-pending (m ∷ ms) state n e h ((x, bad), k) =
      deliver_all-pending ms (deliver m state) (suc n)
        (deliver-sequence m state n e (omega (arith, h))) (omega (arith, h)) k
      ∙ deliver-err m state n x e (omega (arith, h)) bad

  -- After fewer than 2 ^ 64 messages, the pending slot of a mailbox that was empty holds the newest
  -- message that could be encoded, with its number, counted from one over all messages.
  pub deliver_all-newest :
      (earlier later : List M) (message : M) (payload : Text)
      → length earlier + suc (length later) < 2 ^ 64
      → payload_of message (suc (length earlier)) ≡ ok payload
      → NoneEncodes (suc (suc (length earlier))) later
      → (deliver_all (earlier ++ (message ∷ later)) empty_mailbox).pending
        ≡ some (suc (length earlier), payload)
  deliver_all-newest earlier later message payload h found k =
      let before = deliver_all earlier empty_mailbox in
      let n = length earlier in
      let counted =
        deliver_all-sequence earlier empty_mailbox 0 refl (omega (arith, h)) ∙ omega arith in
      ap (λ (s : Mailbox). s.pending) (deliver_all-append earlier (message ∷ later) empty_mailbox)
      ∙ deliver_all-pending later (deliver message before) (suc n)
          (deliver-sequence message before n counted (omega (arith, h))) (omega (arith, h)) k
      ∙ deliver-ok message before n payload counted (omega (arith, h)) found
