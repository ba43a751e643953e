-- ===== src/Client/Buffer.antt =====
-- goderash_sdk/client.py: where the events go that are emitted.
use goderash.Common.{
  ℕ, ◌<◌, List, [], ◌∷◌, ◌++◌, append-nil, append_assoc, length, leb, ◌≡◌, refl, sym, ap, ◌∙◌,
  arith, Bool-cases, inl, inr,
}
use goderash.Http.{Answer}
use goderash.Client.{drain, flush_sync, emit}

module _ {E : Type 0} (batch_size : ℕ) where
  -- The batches that a row of `emit` calls posts, oldest first, and the buffer that stays.
  unfoldable pub emit_all : List (E × (ℕ → Answer)) → List E → List (List E) × List E
  emit_all [] buffer = ([], buffer)
  emit_all ((event, answers) ∷ calls) buffer =
      let first = emit batch_size event answers buffer in
      let (batches, rest) = emit_all calls first.buffer in (first.batch ∷ batches, rest)

  abbrev pub concat : List (List E) → List E
  concat [] = []
  concat (batch ∷ batches) = batch ++ concat batches

  abbrev pub events_of : List (E × (ℕ → Answer)) → List E
  events_of [] = []
  events_of ((event, answers) ∷ calls) = event ∷ events_of calls

  flush_batch :
      (answers : ℕ → Answer) (buffer : List E)
      → ((flush_sync answers buffer).batch ≡ buffer) × ((flush_sync answers buffer).buffer ≡ [])
  unfolding flush_sync drain
  flush_batch answers [] = (refl, refl)
  flush_batch answers (e ∷ es) = (refl, refl)

  -- Whatever the batch size, the batch that an emission posts and then the buffer hold what the
  -- buffer held and the event.
  pub emit-appends :
      (event : E) (answers : ℕ → Answer) (buffer : List E)
      → (emit batch_size event answers buffer).batch
          ++ (emit batch_size event answers buffer).buffer
        ≡ buffer ++ event ∷ []
  unfolding emit
  emit-appends event answers buffer =
      elim (Bool-cases (leb batch_size (length (buffer ++ event ∷ [])))) [
        | inl full ↦
            let (all, empty) = flush_batch answers (buffer ++ event ∷ []) in
            rw (full, all, empty) (append-nil (buffer ++ event ∷ []))
        | inr room ↦ rw room refl
      ]

  emit_small :
      (event : E) (answers : ℕ → Answer) (buffer : List E)
      → 0 < batch_size
      → length (emit batch_size event answers buffer).buffer < batch_size
  unfolding emit
  emit_small event answers buffer size =
      elim (Bool-cases (leb batch_size (length (buffer ++ event ∷ [])))) [
        | inl full ↦
            let (all, empty) = flush_batch answers (buffer ++ event ∷ []) in rw (full, empty) size
        | inr room ↦ rw room (ground (arith, room))
      ]

  -- With a batch size of at least one and a buffer below it, after any row of `emit` calls, whatever
  -- the server answers: the batches posted and then the buffer hold the events that were in the
  -- buffer and those emitted, each once and in order; and the buffer is again below the batch size.
  -- So a batch whose post fails is posted never again.
  pub emit_all-concat :
      (calls : List (E × (ℕ → Answer))) (buffer : List E)
      → 0 < batch_size
      → length buffer < batch_size
      → (concat (emit_all calls buffer).0 ++ (emit_all calls buffer).1 ≡ buffer ++ events_of calls)
        × (length (emit_all calls buffer).1 < batch_size)
  unfolding emit_all
  emit_all-concat [] buffer size below = (sym (append-nil buffer), below)
  emit_all-concat ((event, answers) ∷ calls) buffer size below =
      let first = emit batch_size event answers buffer in
      let same = emit-appends event answers buffer in
      let small = emit_small event answers buffer size in
      let (rest, bound) = emit_all-concat calls first.buffer size small in
      (
        append_assoc first.batch (concat (emit_all calls first.buffer).0)
              (emit_all calls first.buffer).1
            ∙ ap (λ l. first.batch ++ l) rest
            ∙ sym (append_assoc first.batch first.buffer (events_of calls))
            ∙ ap (λ l. l ++ events_of calls) same
            ∙ append_assoc buffer (event ∷ []) (events_of calls),
        bound,
      )
