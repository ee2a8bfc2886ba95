-- ===== src/Listening/Draining.antt =====
-- The draining of the queue in a round of `receive` in src/subscriptions.rs.
use pg_ros.Base.{
  ℕ, zero, suc, ◌+◌, ◌%◌, ◌^◌, ◌≤◌, ◌<◌, ◌≡◌, refl, ap, ◌∙◌, sym, Bool, true, false, List, [], ◌∷◌,
  ◌++◌, some, ok, err, length, arith, append_assoc, append-nil,
}
use pg_ros.Listening.Receiver.{
  Receiver, Backend, Payload, capacity, take, drop, handle, handle_all, commit, drain,
}
use pg_ros.Listening.Notices.{texts, failures}

take_all : (n : ℕ) (ps : List Payload) → length ps ≤ n → take n ps ≡ ps
take_all zero [] h = refl
take_all zero (p ∷ ps) h = absurd (omega arith)
take_all (suc n) [] h = refl
take_all (suc n) (p ∷ ps) h = ap (λ (qs : List Payload). p ∷ qs) (take_all n ps (omega arith))

drop_all : (n : ℕ) (ps : List Payload) → length ps ≤ n → drop n ps ≡ []
drop_all zero [] h = refl
drop_all zero (p ∷ ps) h = absurd (omega arith)
drop_all (suc n) [] h = refl
drop_all (suc n) (p ∷ ps) h = drop_all n ps (omega arith)

-- What the payloads leave: their texts are pending, their errors counted, the rest stays.
record Handled (ps : List Payload) (before after : Receiver × Backend × Bool) : Type 0 where
  notes : after.1.pending ≡ before.1.pending ++ texts ps
  noted : after.2 ≡ false → (texts ps ≡ []) × (before.2 ≡ false)
  errors :
      before.0.encoding_errors + failures ps < 2 ^ 64
      → after.0.encoding_errors ≡ before.0.encoding_errors + failures ps
  same_committed : after.1.committed ≡ before.1.committed
  same_warnings : after.1.warnings ≡ before.1.warnings
  same_queue : after.0.queue ≡ before.0.queue
  same_dropped : after.0.dropped ≡ before.0.dropped
  same_sequence : after.0.sequence ≡ before.0.sequence
  same_subscription : after.0.subscription ≡ before.0.subscription

handle_all-Handled :
    (ps : List Payload) (r : Receiver) (b : Backend) (n : Bool)
    → Handled ps (r, b, n) (handle_all ps (r, b, n))
unfolding handle_all handle
handle_all-Handled [] r b n = record {
  notes = sym (append-nil b.pending);
  noted = λ e. (refl, e);
  errors = λ l. omega arith;
  same_committed = refl;
  same_warnings = refl;
  same_queue = refl;
  same_dropped = refl;
  same_sequence = refl;
  same_subscription = refl;
}
handle_all-Handled (ok t ∷ ps) r b n =
    let h = handle_all-Handled ps r (record b { pending = b.pending ++ (t ∷ []) }) true in
    record {
      notes = h.notes ∙ append_assoc b.pending (t ∷ []) (texts ps);
      noted = λ e. absurd (true-false (h.noted e).1);
      errors = h.errors;
      same_committed = h.same_committed;
      same_warnings = h.same_warnings;
      same_queue = h.same_queue;
      same_dropped = h.same_dropped;
      same_sequence = h.same_sequence;
      same_subscription = h.same_subscription;
    }
  where
    true-false : ¬ (true ≡ false)
    true-false e = cc
handle_all-Handled (err e ∷ ps) r b n =
    let r' : Receiver = record r {
      encoding_errors = (r.encoding_errors + 1) % 2 ^ 64;
      last_encoding_error = some e;
    } in
    let h = handle_all-Handled ps r' b n in
    record {
      notes = h.notes;
      noted = h.noted;
      errors = λ l. h.errors (omega (arith, l)) ∙ omega (arith, l);
      same_committed = h.same_committed;
      same_warnings = h.same_warnings;
      same_queue = h.same_queue;
      same_dropped = h.same_dropped;
      same_sequence = h.same_sequence;
      same_subscription = h.same_subscription;
    }

-- What draining leaves: every text of the queue is committed, in order, and nothing stays open.
pub record Drained (r : Receiver) (b : Backend) (after : Receiver × Backend) : Type 0 where
  pub empty : after.0.queue ≡ []
  pub closed : after.1.pending ≡ []
  pub commits : after.1.committed ≡ b.committed ++ texts r.queue
  pub errors :
      r.encoding_errors + failures r.queue < 2 ^ 64
      → after.0.encoding_errors ≡ r.encoding_errors + failures r.queue
  pub same_warnings : after.1.warnings ≡ b.warnings
  pub same_dropped : after.0.dropped ≡ r.dropped
  pub same_sequence : after.0.sequence ≡ r.sequence
  pub same_subscription : after.0.subscription ≡ r.subscription

commit-Drained :
    (r : Receiver) (b : Backend) (ps : List Payload)
    → b.pending ≡ []
    → (state : Receiver × Backend × Bool) → ps ≡ r.queue
    → Handled ps (record r { queue = [] }, b, false) state
    → Drained r b (state.0, commit state.2 state.1)
unfolding commit
commit-Drained r b ps clear (r', b', true) e h = record {
  empty = h.same_queue;
  closed = refl;
  commits = rw (h.same_committed, h.notes, clear, e) refl;
  errors = rw e at h.errors;
  same_warnings = h.same_warnings;
  same_dropped = h.same_dropped;
  same_sequence = h.same_sequence;
  same_subscription = h.same_subscription;
}
commit-Drained r b ps clear (r', b', false) e h = record {
  empty = h.same_queue;
  closed = h.notes ∙ rw (clear, (h.noted refl).0) refl;
  commits = h.same_committed ∙ sym (append-nil b.committed) ∙ rw (← e, (h.noted refl).0) refl;
  errors = rw e at h.errors;
  same_warnings = h.same_warnings;
  same_dropped = h.same_dropped;
  same_sequence = h.same_sequence;
  same_subscription = h.same_subscription;
}

-- A queue within its capacity is emptied: the texts of its payloads are notified and committed, in
-- order, and the payloads that could not be encoded are counted.
pub drain-Drained :
    (r : Receiver) (b : Backend)
    → length r.queue ≤ capacity
    → b.pending ≡ []
    → Drained r b (drain r b)
unfolding drain
drain-Drained r b h clear =
    let whole = take_all capacity r.queue h in
    let none_left = drop_all capacity r.queue h in
    rw (whole, none_left)
      (commit-Drained r b r.queue clear _ refl
        (handle_all-Handled r.queue (record r { queue = [] }) b false))
