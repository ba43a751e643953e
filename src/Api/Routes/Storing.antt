-- ===== src/Api/Routes/Storing.antt =====
-- api/routes.py: what `store_batch` does to the log that a client sees.
use goderash.Common.{
  Outcome-cases, ℕ, String, true, ◌≡◌, ◌≢◌, refl, sym, ap, ◌∙◌, subst, ◌⊎◌, inl, inr, Option, none,
  List, [], ◌∷◌, ◌++◌, suc, map, map-append, length, arith, returned, raised,
}
use goderash.Json.{Fields}
use goderash.Events.{GoderashEventEnvelope}
use goderash.Ledger.Chain.{Hasher, verify_chain}
use goderash.Ledger.Chain.Evidence.{DigestCount, IsBroken}
use goderash.Ledger.Store.{EventRow, rows_of, iter_tenant, append_many}
use goderash.Ledger.Store.Linked.{chain_event}
use goderash.Ledger.Store.Fresh.{AreKept, hashed, IsChain, IsFresh, AllOf, append_many-IsChain}
use goderash.Ledger.Store.Growth.{append_many-append_only}
use goderash.Ledger.Store.Entries.{Entry, row_entry, entry_of, append_many-entries}
use goderash.Billing.{Redis}
use goderash.Webhooks.{WebhookEndpoint}
use goderash.Database.{Database, ApiError}
use goderash.Api.Routes.{
  Server, Ingest, IngestResponse, count_usage, response_of, last_id, store_batch,
}

module _ {F : Type 0} where
  -- The events of a tenant, oldest first.
  abbrev pub log : String → Database F → List (Entry F)
  log t db = map row_entry (rows_of t db.events)

  -- The batch is in the log of its tenant, behind what was there, and nowhere else.
  pub record IsStored (hs : Hasher (Fields F)) (t : String)
      (events : List (GoderashEventEnvelope F)) (response : IngestResponse) (db db' : Database F)
      : Type 0 where
    pub accepted : response.accepted ≡ length events
    pub appended : log t db' ≡ log t db ++ map (entry_of hs) events
    pub others : (u : String) → u ≢ t → log u db' ≡ log u db
    pub chain : IsChain hs (rows_of t db'.events)
    pub verified :
        verify_chain hs (map chain_event (iter_tenant t none none none db'.events)) ≡ (true, none)

  last_id-cons :
      (env : GoderashEventEnvelope F) (stored : List (GoderashEventEnvelope F))
      → (last : ℕ) × (last_id (env ∷ stored) ≡ returned last)
  last_id-cons env [] = (env.event_id, refl)
  last_id-cons env (next ∷ stored) = last_id-cons next stored

  response_of-cons :
      (env : GoderashEventEnvelope F) (stored : List (GoderashEventEnvelope F))
      → (response : IngestResponse) × (response_of (env ∷ stored) ≡ returned response)
        × (response.accepted ≡ length (env ∷ stored))
  unfolding response_of
  response_of-cons env stored =
      let (last, e) = last_id-cons env stored in
      (
        record {
          accepted = length (env ∷ stored);
          first_event_id = env.event_id;
          last_event_id = last;
        },
        rw e refl,
        refl,
      )

module _ {F : Type 0} (hs : Hasher (Fields F)) (sv : Server) where
  -- What `store_batch` comes to, once the rows are made.
  abbrev pub Ends :
      String → List (GoderashEventEnvelope F) → Option Redis → Database F → Ingest F → Type 0
  Ends t events redis db r =
      ((response : IngestResponse) × (r.outcome ≡ returned response)
        × IsStored hs t events response db r.db)
      ⊎ ((exc : ApiError) × (r.outcome ≡ raised exc)
          × (r.db ≡ db)
          × ((count_usage sv t (length events) redis).0 ≡ raised exc))
      ⊎ IsBroken hs (hashed hs (rows_of t db.events) events)

  -- The run with its rows made and its response: by whether the usage is counted.
  store_batch-counted :
      (t : String) (events stored : List (GoderashEventEnvelope F)) (rows : List (EventRow F))
      (redis : Option Redis) (notified : List WebhookEndpoint) (db : Database F)
      (response : IngestResponse)
      → append_many hs t sv.now events db.events ≡ returned (stored, rows)
      → response_of stored ≡ returned response
      → (count_usage sv t (length stored) redis).0 ≡ returned tt
      → store_batch hs sv t events redis notified db ≡ record {
        outcome = returned response;
        redis = (count_usage sv t (length stored) redis).1;
        notified = notified;
        db = record db { events = rows };
      }
  unfolding store_batch
  store_batch-counted t events stored rows redis notified db response eq made counted =
      rw (store_batch, eq) (rw (counted, made) refl)

  store_batch-uncounted :
      (t : String) (events stored : List (GoderashEventEnvelope F)) (rows : List (EventRow F))
      (redis : Option Redis) (notified : List WebhookEndpoint) (db : Database F) (exc : ApiError)
      → append_many hs t sv.now events db.events ≡ returned (stored, rows)
      → (count_usage sv t (length stored) redis).0 ≡ raised exc
      → store_batch hs sv t events redis notified db ≡ record {
        outcome = raised exc;
        redis = (count_usage sv t (length stored) redis).1;
        notified = notified;
        db = db;
      }
  unfolding store_batch
  store_batch-uncounted t events stored rows redis notified db exc eq counted =
      rw (store_batch, eq) (rw counted refl)

  stored-Ends :
      (t : String) (events stored : List (GoderashEventEnvelope F)) (rows : List (EventRow F))
      (redis : Option Redis) (notified : List WebhookEndpoint) (db : Database F)
      → append_many hs t sv.now events db.events ≡ returned (stored, rows)
      → length stored ≡ length events
      → ((response : IngestResponse) × (response_of stored ≡ returned response)
          × (response.accepted ≡ length stored))
      → ((response : IngestResponse)
          → response.accepted ≡ length events
          → IsStored hs t events response db (record db { events = rows }))
      → Ends t events redis db (store_batch hs sv t events redis notified db)
  stored-Ends t events stored rows redis notified db eq counted (response, made, accepted) good =
      elim (Outcome-cases (count_usage sv t (length stored) redis).0) [
        | inl (_, e) ↦
            subst (Ends t events redis db)
              (sym (store_batch-counted t events stored rows redis notified db response eq made e))
              (inl (response, refl, good response (accepted ∙ counted)))
        | inr (exc, e) ↦
            subst (Ends t events redis db)
              (sym (store_batch-uncounted t events stored rows redis notified db exc eq e))
              (inr (
                inl (
                  exc,
                  refl,
                  refl,
                  subst (λ n. (count_usage sv t n redis).0 ≡ raised exc) counted e,
                )))
      ]

  pub store_batch-Ends :
      DigestCount hs
      → (t : String) (env : GoderashEventEnvelope F) (rest : List (GoderashEventEnvelope F))
        (redis : Option Redis) (notified : List WebhookEndpoint) (db : Database F)
      → AllOf t (env ∷ rest)
      → IsFresh (env ∷ rest) db.events
      → IsChain hs (rows_of t db.events)
      → AreKept hs (env ∷ rest)
      → Ends t (env ∷ rest) redis db (store_batch hs sv t (env ∷ rest) redis notified db)
  store_batch-Ends dc t env rest redis notified db own fresh chain kept =
      elim (append_many-IsChain hs dc t sv.now (env ∷ rest) db.events own fresh chain kept) [
        | inr broken ↦ inr (inr broken)
        | inl (stored, rows, eq, counted, after, verified) ↦
            let (added, _, all, others, _) =
              append_many-append_only hs t sv.now (env ∷ rest) stored db.events (db.events ++ rows)
                eq in
            let (same, tail) =
              append_many-entries hs t sv.now (env ∷ rest) stored db.events rows eq counted in
            stored-Ends t (env ∷ rest) stored (db.events ++ rows) redis notified db eq all
              (response_of-nonempty stored all)
              (λ response accepted. record {
                accepted = accepted;
                appended =
                    ap (map row_entry) tail
                    ∙ map-append row_entry (rows_of t db.events) rows
                    ∙ ap (λ x. log t db ++ x) same;
                others = λ u ne. ap (map row_entry) (others u ne);
                chain = after;
                verified = verified;
              })
      ]
    where
      response_of-nonempty :
          (stored : List (GoderashEventEnvelope F))
          → length stored ≡ suc (length rest)
          → (response : IngestResponse) × (response_of stored ≡ returned response)
            × (response.accepted ≡ length stored)
      response_of-nonempty [] e = absurd (omega (arith, e))
      response_of-nonempty (sealed ∷ stored) e = response_of-cons sealed stored
