-- ===== src/Ledger/Store/Fresh.antt =====
-- ledger/store.py: `append_many` with new event ids extends the chain of the tenant.
use goderash.Common.{
  returned, ℕ, suc, ◌+s◌, ◌+◌, ◌≤◌, ◌<◌, String, str_eq, eq_refl, ◌≡◌, refl, sym, ap, ◌∙◌, subst,
  ◌⊎◌, inl, inr, Bool, true, false, ◌||◌, none, List, [], ◌∷◌, ◌++◌, append_assoc, append-nil,
  arith, any, map, keep-append, length, ◌==◌, Bool-cases,
}
use goderash.Json.{Fields}
use goderash.Events.{GoderashEventEnvelope}
use goderash.Events.Dump.{model_dump}
use goderash.Ledger.Chain.{Hasher, genesis_prev_hash, compute_hash, verify_chain}
use goderash.Ledger.Chain.Verdict.{verify_chain_of_IsIntact}
use goderash.Ledger.Chain.Evidence.{
  DigestCount, IsBroken, IsBroken-mono, has, has-append, inputs, head_of,
}
use goderash.Ledger.Store.{
  EventRow, rows_of, violates, fits, insert_row, insert_rows, seal, row_of, seal_all, append_many,
  iter_tenant, fetch_head_hash, fetch_head_sequence,
}
use goderash.Ledger.Store.Order.{
  IsOrdered, last_sequence, last_digest, IsOrdered-append, last_sequence-append, last_digest-append,
  fetch_head_sequence_lem, fetch_head_hash_lem, order_by_sequence_lem,
}
use goderash.Ledger.Store.Linked.{
  IsLinked, IsLinked-append, history, last_digest-history, length-history, digest_clash,
  chain_event, IsLinked-IsIntact,
}

module _ {F : Type 0} where
  abbrev pub has_id : ℕ → List (EventRow F) → Bool
  has_id i = any (λ s. s.event_id == i)

  -- No envelope repeats the id of a stored row or of an earlier envelope.
  abbrev pub IsFresh : List (GoderashEventEnvelope F) → List (EventRow F) → Type 0
  IsFresh [] db = Unit {0}
  IsFresh (env ∷ envelopes) db =
      (has_id env.event_id db ≡ false)
      × (any (λ e. e.event_id == env.event_id) envelopes ≡ false)
      × IsFresh envelopes db

  abbrev pub AllOf : String → List (GoderashEventEnvelope F) → Type 0
  AllOf t [] = Unit {0}
  AllOf t (env ∷ envelopes) = (env.tenant_id ≡ t) × AllOf t envelopes

  has_id-append :
      (i : ℕ) (db : List (EventRow F)) (r : EventRow F)
      → has_id i (db ++ r ∷ []) ≡ (has_id i db || (r.event_id == i))
  has_id-append i [] r = ground arith
  has_id-append i (s ∷ db) r = ground (arith, has_id-append i db r)

  -- Storing a row under one of the ids leaves the others fresh.
  IsFresh-append :
      (envelopes : List (GoderashEventEnvelope F)) (db : List (EventRow F)) (r : EventRow F)
      → IsFresh envelopes db
      → any (λ e. e.event_id == r.event_id) envelopes ≡ false
      → IsFresh envelopes (db ++ r ∷ [])
  IsFresh-append [] db r h k = tt
  IsFresh-append (env ∷ envelopes) db r h k = (
    ground (arith, has_id-append env.event_id db r),
    h.1,
    IsFresh-append envelopes db r h.2 (ground arith),
  )

  le-last_sequence :
      (n : ℕ) (rows : List (EventRow F)) → IsOrdered n rows → n ≤ last_sequence n rows
  le-last_sequence n [] h = omega arith
  le-last_sequence n (r ∷ rows) h = omega (arith, le-last_sequence r.sequence_no rows h.1)

  -- In order, the next number is taken by no row of the tenant.
  pub sequence_is_new :
      (r : EventRow F) (n : ℕ) (rows : List (EventRow F))
      → IsOrdered n rows
      → last_sequence n rows < r.sequence_no
      → any (λ s. s.sequence_no == r.sequence_no) rows ≡ false
  sequence_is_new r n [] h k = refl
  sequence_is_new r n (s ∷ rows) h k =
      ground
        (arith, sequence_is_new r s.sequence_no rows h.1 k, le-last_sequence s.sequence_no rows h.1)

  -- A violated constraint is one of the two, in a row of the tenant.
  pub violates-cases :
      (r : EventRow F) (db : List (EventRow F))
      → any (λ s. s.sequence_no == r.sequence_no) (rows_of r.tenant_id db) ≡ false
      → any (violates r) db ≡ true
      → any (λ s. str_eq s.hash r.hash) (rows_of r.tenant_id db) ≡ true
  violates-cases r [] h k = ground arith
  violates-cases r (s ∷ db) h k = ground (arith, violates-cases r db)

module _ {F : Type 0} (hs : Hasher (Fields F)) where
  -- What the columns take of each envelope: its texts and numbers fit, and what JSONB gives back of
  -- its payload reads as the payload did.
  abbrev pub AreKept : List (GoderashEventEnvelope F) → Type 0
  AreKept [] = Unit {0}
  AreKept (env ∷ envelopes) =
      (fits (row_of hs 0 "" 0 env) ≡ true)
      × (hs.canonical_json (hs.jsonb (model_dump env.payload))
          ≡ hs.canonical_json (model_dump env.payload))
      × AreKept envelopes

  -- The payloads of a batch, newest first, before those of `older`.
  abbrev pub onto : List (Fields F) → List (GoderashEventEnvelope F) → List (Fields F)
  onto older [] = older
  onto older (env ∷ envelopes) = onto (hs.jsonb (model_dump env.payload) ∷ older) envelopes

  inputs-onto :
      (older : List (Fields F)) (envelopes : List (GoderashEventEnvelope F)) (x : String)
      → has x (inputs hs older) ≡ true
      → has x (inputs hs (onto older envelopes)) ≡ true
  inputs-onto older [] x h = h
  inputs-onto older (env ∷ envelopes) x h =
      inputs-onto (hs.jsonb (model_dump env.payload) ∷ older) envelopes x (ground arith)

  -- The texts that are hashed for the rows of a tenant and a batch behind them.
  abbrev pub hashed : List (EventRow F) → List (GoderashEventEnvelope F) → List String
  hashed rows envelopes = inputs hs (onto (history hs [] rows) envelopes)

  pub history-snoc :
      (older : List (Fields F)) (rows : List (EventRow F)) (r : EventRow F)
      → history hs older (rows ++ r ∷ []) ≡ r.payload ∷ history hs older rows
  history-snoc older [] r = refl
  history-snoc older (s ∷ rows) r = history-snoc (s.payload ∷ older) rows r

  pub compute_hash-jsonb :
      (prev : String) (d : Fields F)
      → hs.canonical_json (hs.jsonb d) ≡ hs.canonical_json d
      → compute_hash hs prev d ≡ compute_hash hs prev (hs.jsonb d)
  unfolding compute_hash
  compute_hash-jsonb prev d same = ap (λ j. hs.sha256 (prev +s ("|" +s j))) (sym same)

  -- The rows of one tenant: in order, and linked from genesis.
  abbrev pub IsChain : List (EventRow F) → Type 0
  IsChain rows = IsOrdered 0 rows × IsLinked hs genesis_prev_hash rows

  pub rows_of_snoc :
      (r : EventRow F) (db : List (EventRow F))
      → rows_of r.tenant_id (db ++ r ∷ []) ≡ rows_of r.tenant_id db ++ r ∷ []
  rows_of_snoc r db =
      rw (keep-append (λ s. str_eq s.tenant_id r.tenant_id) db (r ∷ []), eq_refl r.tenant_id) refl

  -- `r` is the row that comes after `rows`.
  pub record Extends (rows : List (EventRow F)) (r : EventRow F) : Type 0 where
    pub numbered : r.sequence_no ≡ last_sequence 0 rows + 1
    pub links : r.prev_hash ≡ last_digest genesis_prev_hash rows
    pub computed : r.hash ≡ compute_hash hs r.prev_hash r.payload

  pub IsChain-snoc :
      (rows : List (EventRow F)) (r : EventRow F)
      → IsChain rows
      → Extends rows r
      → IsChain (rows ++ r ∷ [])
  IsChain-snoc rows r chain ext = (
    IsOrdered-append 0 rows (r ∷ []) chain.0 (omega (arith, ext.numbered), tt),
    IsLinked-append hs genesis_prev_hash rows (r ∷ []) chain.1
        (ext.links, subst (λ p. r.hash ≡ compute_hash hs p r.payload) ext.links ext.computed, tt),
  )

  pub head_digest :
      (rows : List (EventRow F))
      → IsLinked hs genesis_prev_hash rows
      → last_digest genesis_prev_hash rows ≡ head_of hs (history hs [] rows)
  unfolding head_of
  head_digest rows k = last_digest-history hs [] rows k

  -- The digest of the next row stands in no row of the chain.
  has-twice :
      (older : List (Fields F)) (d : Fields F) (x : String)
      → has x (inputs hs older ++ inputs hs (d ∷ older)) ≡ true
      → has x (inputs hs (d ∷ older)) ≡ true
  has-twice older d x h = ground (arith, has-append x (inputs hs older) (inputs hs (d ∷ older)))

  pub digest_is_new :
      DigestCount hs
      → (r : EventRow F) (rows : List (EventRow F)) → IsChain rows
      → Extends rows r
      → any (λ s. str_eq s.hash r.hash) rows ≡ true
      → IsBroken hs (inputs hs (r.payload ∷ history hs [] rows))
  unfolding head_of
  digest_is_new dc r rows chain ext found =
      let e : r.hash ≡ compute_hash hs (head_of hs (history hs [] rows)) r.payload =
        subst (λ p. r.hash ≡ compute_hash hs p r.payload) (ext.links ∙ head_digest rows chain.1)
          ext.computed in
      IsBroken-mono hs
        (inputs hs (history hs [] rows) ++ inputs hs (r.payload ∷ history hs [] rows))
        (inputs hs (r.payload ∷ history hs [] rows)) (has-twice (history hs [] rows) r.payload)
        (digest_clash hs dc [] rows (history hs [] rows) r.payload chain.1
          (omega (arith, length-history hs [] rows))
          (subst (λ h. any (λ (s : EventRow F). str_eq s.hash h) rows ≡ true) e found))

  -- The row of the next envelope is stored, and extends the chain.
  insert_row_fresh :
      DigestCount hs
      → (r : EventRow F) (db : List (EventRow F)) → IsChain (rows_of r.tenant_id db)
      → has_id r.event_id db ≡ false
      → Extends (rows_of r.tenant_id db) r
      → fits r ≡ true
      → (insert_row r db ≡ returned (db ++ r ∷ []))
        ⊎ IsBroken hs (inputs hs (r.payload ∷ history hs [] (rows_of r.tenant_id db)))
  unfolding insert_row
  insert_row_fresh dc r db chain new ext fit = elim (Bool-cases (any (violates r) db)) [
    | inl bad ↦ inr (
        digest_is_new dc r (rows_of r.tenant_id db) chain ext (
          violates-cases r db
            (sequence_is_new r 0 (rows_of r.tenant_id db) chain.0 (omega (arith, ext.numbered)))
            bad))
    | inr good ↦ inl (rw (fit, new, good) refl)
  ]

  -- What the loop and the insertion do with fresh envelopes, from the head of the ledger on.
  record Appended (t : String) (now : ℕ) (prev : String) (seq : ℕ)
      (envelopes : List (GoderashEventEnvelope F)) (db : List (EventRow F)) : Type 0 where
    stored : List (GoderashEventEnvelope F)
    rows : List (EventRow F)
    sealed : seal_all hs t now prev seq envelopes ≡ returned (stored, rows)
    inserted : insert_rows rows db ≡ returned (db ++ rows)
    counted : length rows ≡ length envelopes
    chained : IsChain (rows_of t (db ++ rows))

  -- One envelope of the tenant, and then the rest from the table that holds its row.
  append_step :
      (now : ℕ) (prev : String) (seq : ℕ) (env : GoderashEventEnvelope F)
      (envelopes : List (GoderashEventEnvelope F)) (db : List (EventRow F))
      → let r = row_of hs now prev seq env in
        insert_row r db ≡ returned (db ++ r ∷ [])
        → Appended env.tenant_id now r.hash (seq + 1) envelopes (db ++ r ∷ [])
        → Appended env.tenant_id now prev seq (env ∷ envelopes) db
  unfolding seal_all insert_rows row_of
  append_step now prev seq env envelopes db put rest =
      let r : EventRow F = row_of hs now prev seq env in
      let same : (db ++ r ∷ []) ++ rest.rows ≡ db ++ r ∷ rest.rows =
        append_assoc db (r ∷ []) rest.rows in
      record {
        stored = seal hs now prev env ∷ rest.stored;
        rows = r ∷ rest.rows;
        sealed = rw (eq_refl env.tenant_id, rest.sealed) refl;
        inserted = rw (put, rest.inserted) (ap returned same);
        counted = ap suc rest.counted;
        chained = subst (λ rows. IsChain (rows_of env.tenant_id rows)) same rest.chained;
      }

  append_loop :
      DigestCount hs
      → (t : String) (now : ℕ) (prev : String) (seq : ℕ)
        (envelopes : List (GoderashEventEnvelope F)) (db : List (EventRow F))
      → AllOf t envelopes
      → IsFresh envelopes db
      → IsChain (rows_of t db)
      → seq ≡ last_sequence 0 (rows_of t db) + 1
      → prev ≡ last_digest genesis_prev_hash (rows_of t db)
      → AreKept envelopes
      → Appended t now prev seq envelopes db ⊎ IsBroken hs (hashed (rows_of t db) envelopes)
  unfolding seal_all insert_rows row_of fits
  append_loop dc t now prev seq [] db all fresh chain es ep kept = inl (record {
    stored = [];
    rows = [];
    sealed = refl;
    inserted = rw append-nil;
    counted = refl;
    chained = rw append-nil chain;
  })
  append_loop dc t now prev seq (env ∷ envelopes) db all fresh chain es ep kept =
      let r : EventRow F = row_of hs now prev seq env in
      let chain' : IsChain (rows_of r.tenant_id db) =
        subst (λ x. IsChain (rows_of x db)) (sym all.0) chain in
      let ext : Extends (rows_of t db) r = record {
        numbered = es;
        links = ep;
        computed = compute_hash-jsonb prev (model_dump env.payload) kept.1;
      } in
      let ext' : Extends (rows_of r.tenant_id db) r =
        subst (λ x. Extends (rows_of x db) r) (sym all.0) ext in
      let snoc : rows_of t (db ++ r ∷ []) ≡ rows_of t db ++ r ∷ [] =
        subst (λ x. rows_of x (db ++ r ∷ []) ≡ rows_of x db ++ r ∷ []) all.0 (rows_of_snoc r db) in
      let grown : history hs [] (rows_of t (db ++ r ∷ []))
          ≡ r.payload ∷ history hs [] (rows_of t db) =
        ap (history hs []) snoc ∙ history-snoc [] (rows_of t db) r in
      elim (insert_row_fresh dc r db chain' fresh.0 ext' kept.0) [
        | inr broken ↦ inr (
            IsBroken-mono hs (inputs hs (r.payload ∷ history hs [] (rows_of t db)))
              (hashed (rows_of t db) (env ∷ envelopes))
              (inputs-onto (r.payload ∷ history hs [] (rows_of t db)) envelopes)
              (subst (λ x. IsBroken hs (inputs hs (r.payload ∷ history hs [] (rows_of x db)))) all.0
                broken))
        | inl put ↦
            elim (append_loop dc t now r.hash (seq + 1) envelopes (db ++ r ∷ []) all.1
              (IsFresh-append envelopes db r fresh.2 fresh.1)
              (subst IsChain (sym snoc) (IsChain-snoc (rows_of t db) r chain ext))
              (rw (snoc, last_sequence-append) refl) (rw (snoc, last_digest-append) refl) kept.2) [
                | inr broken ↦
                    inr (subst (λ h. IsBroken hs (inputs hs (onto h envelopes))) grown broken)
                | inl rest ↦ inl (
                    subst (λ x. Appended x now prev seq (env ∷ envelopes) db) all.0
                      (append_step now prev seq env envelopes db put (
                        subst (λ x. Appended x now r.hash (seq + 1) envelopes (db ++ r ∷ []))
                          (sym all.0) rest)))
              ]
      ]

  IsChain-verifies :
      (t : String) (db : List (EventRow F))
      → IsChain (rows_of t db)
      → verify_chain hs (map chain_event (iter_tenant t none none none db)) ≡ (true, none)
  unfolding iter_tenant
  IsChain-verifies t db chain = rw (order_by_sequence_lem 0 (rows_of t db) chain.0) (
      verify_chain_of_IsIntact hs _ (IsLinked-IsIntact hs genesis_prev_hash (rows_of t db) chain.1))

  -- If the rows of tenant `t` are in order and linked from genesis, all envelopes are of `t`,
  -- none repeats a stored event id or one of the batch, their fields fit the columns, and JSONB
  -- gives back payloads that read the same, then `append_many` succeeds: it keeps every
  -- row of the table and adds one for each envelope, the rows of `t` are again in order and linked,
  -- and `verify_chain` accepts what `iter_tenant` returns of them. Else two different texts of those
  -- hashed for the rows of `t` and the batch have one digest, or one has the genesis sentinel.
  pub append_many-IsChain :
      DigestCount hs
      → (t : String) (now : ℕ) (envelopes : List (GoderashEventEnvelope F)) (db : List (EventRow F))
      → AllOf t envelopes
      → IsFresh envelopes db
      → IsChain (rows_of t db)
      → AreKept envelopes
      → ((stored : List (GoderashEventEnvelope F)) × (rows : List (EventRow F)) × (append_many hs t
              now envelopes db
            ≡ returned (stored, db ++ rows))
          × (length rows ≡ length envelopes)
          × IsChain (rows_of t (db ++ rows))
          × (verify_chain hs (map chain_event (iter_tenant t none none none (db ++ rows)))
              ≡ (true, none)))
        ⊎ IsBroken hs (hashed (rows_of t db) envelopes)
  unfolding append_many
  append_many-IsChain dc t now [] db all fresh chain kept = inl (
    [],
    [],
    rw append-nil,
    refl,
    rw append-nil chain,
    rw append-nil (IsChain-verifies t db chain),
  )
  append_many-IsChain dc t now (env ∷ envelopes) db all fresh chain kept =
      elim (append_loop dc t now (fetch_head_hash t db) (fetch_head_sequence t db + 1)
        (env ∷ envelopes) db all fresh chain
        (ap (λ (n : ℕ). n + 1) (fetch_head_sequence_lem t db chain.0))
        (fetch_head_hash_lem t db chain.0) kept) [
          | inr broken ↦ inr broken
          | inl a ↦ inl (
            a.stored,
            a.rows,
            rw (a.sealed, a.inserted) refl,
            a.counted,
            a.chained,
            IsChain-verifies t (db ++ a.rows) a.chained,
          )
        ]
