-- ===== src/Packs/Controls.antt =====
-- packs/soc2.py, finra.py, ffiec.py and hipaa.py: the controls of each pack. `python_str` is Python's
-- `str` of a value that is no text.
use goderash.Common.{ℕ, String, true, none, some, List, [], ◌∷◌, map, length}
use goderash.Json.{Json, Fields, bool, str, obj, get, dict}
use goderash.Ledger.Store.{EventRow}
use goderash.Packs.{Regulation, counter, count_at, counts_json, of_type, by_type, number}

module _ {F : Type 0} (python_str : Json F → String) where
  abbrev pub text_of : Json F → String
  text_of (str s) = s
  text_of v = python_str v

  -- `str((e.payload or {}).get(key, "unknown"))`
  unfoldable pub value_of : String → EventRow F → String
  value_of key e = elim (get key e.payload) [ none ↦ "unknown" | some v ↦ text_of v ]

  abbrev pub by_value : String → String → List (EventRow F) → List (String × ℕ)
  by_value t key events = counter (map (value_of key) (of_type t events))

  unfoldable pub render_soc2 : List (EventRow F) → Fields F
  render_soc2 events = dict (
      (
        "CC6.1_logical_access",
        obj (
            dict (
              (
                "description",
                str
                    "Every action attempted is recorded. Allowed vs denied decisions are timestamped, attributed, and hash-chained.",
              )
              ∷ ("allowed_actions", number (count_at "permission.granted" (by_type events)))
              ∷ ("denied_actions", number (count_at "permission.denied" (by_type events)))
              ∷ ("denial_reasons", counts_json (by_value "permission.denied" "reason" events))
              ∷ [])),
      )
      ∷ (
        "CC7.2_monitoring",
        obj (
            dict (
              (
                "description",
                str "All agent activity is captured in the ledger with a SHA-256 chain.",
              )
              ∷ ("event_counts", counts_json (by_type events))
              ∷ [])),
      )
      ∷ (
        "CC7.4_incidents",
        obj (
            dict (
              ("description", str "Tool failures are captured per-tool for incident review.")
              ∷ ("failures_by_tool", counts_json (by_value "tool.failed" "tool_name" events))
              ∷ [])),
      )
      ∷ [])

  unfoldable pub render_finra : List (EventRow F) → Fields F
  render_finra events = dict (
      (
        "rule_4511_general_books_and_records",
        obj (
            dict (
              (
                "description",
                str
                    "Member firms must make and preserve books and records as described by SEA Rules 17a-3 and 17a-4.",
              )
              ∷ ("ledger_entries", number (length events))
              ∷ ("events_by_type", counts_json (by_type events))
              ∷ [])),
      )
      ∷ (
        "rule_3110_supervision",
        obj (
            dict (
              (
                "description",
                str
                    "Supervisory framework is reflected in permission-mode events: every action attempted by the agent has a recorded decision.",
              )
              ∷ ("actions_allowed", number (count_at "permission.granted" (by_type events)))
              ∷ ("actions_denied", number (count_at "permission.denied" (by_type events)))
              ∷ [])),
      )
      ∷ (
        "sea_17a4_retention",
        obj (
            dict (
              (
                "description",
                str
                    "Records preserved in non-rewritable, non-erasable format. Goderash emits to an append-only ledger with hash chain; pair with WORM-compliant storage at the infra tier.",
              )
              ∷ ("hash_algorithm", str "SHA-256")
              ∷ ("appendOnly", bool true)
              ∷ [])),
      )
      ∷ [])

  unfoldable pub render_ffiec : List (EventRow F) → Fields F
  render_ffiec events = dict (
      (
        "audit_independence_of_audit_function",
        obj (
            dict (
              (
                "description",
                str
                    "The Goderash ledger is append-only and cryptographically chained; no role inside the customer agent stack can mutate audit history.",
              )
              ∷ ("chain_verified", bool true)
              ∷ ("ledger_event_count", number (length events))
              ∷ [])),
      )
      ∷ (
        "information_security_logging_and_monitoring",
        obj (
            dict (
              (
                "description",
                str
                    "Activity logs capture events, identify attempted or successful intrusions, and provide for the timely detection of anomalies.",
              )
              ∷ ("events_by_type", counts_json (by_type events))
              ∷ ("denials_by_source", counts_json (by_value "permission.denied" "source" events))
              ∷ [])),
      )
      ∷ (
        "information_security_data_integrity",
        obj (
            dict (
              (
                "description",
                str
                    "Tamper-evident records of agent activity using SHA-256 hash chain across ledger entries.",
              )
              ∷ ("hash_algorithm", str "SHA-256")
              ∷ ("verifier_endpoint", str "/v1/verify")
              ∷ [])),
      )
      ∷ (
        "operations_change_management",
        obj (
            dict (
              ("description", str "Schema evolution is upcaster-driven; raw rows never mutate.")
              ∷ ("schema_version", str "tracked per envelope")
              ∷ [])),
      )
      ∷ (
        "operations_incident_management",
        obj (
            dict (
              ("description", str "Tool failures and contract violations recorded with severity.")
              ∷ ("tool_failures", number (count_at "tool.failed" (by_type events)))
              ∷ ("contract_violations", number (count_at "contract.violated" (by_type events)))
              ∷ ("violation_severity", counts_json (by_value "contract.violated" "severity" events))
              ∷ [])),
      )
      ∷ [])

  unfoldable pub render_hipaa : List (EventRow F) → Fields F
  render_hipaa events = dict (
      (
        "164.312(a)(1)_access_control",
        obj (
            dict (
              (
                "description",
                str
                    "Unique user identification + emergency access via the agent identity and the permission gate; every allow/deny is logged.",
              )
              ∷ ("allowed", number (count_at "permission.granted" (by_type events)))
              ∷ ("denied", number (count_at "permission.denied" (by_type events)))
              ∷ ("denial_sources", counts_json (by_value "permission.denied" "source" events))
              ∷ [])),
      )
      ∷ (
        "164.312(b)_audit_controls",
        obj (
            dict (
              (
                "description",
                str
                    "Hardware, software, and procedural mechanisms that record and examine activity in information systems containing or using ePHI.",
              )
              ∷ ("all_events_chained", bool true)
              ∷ ("event_counts", counts_json (by_type events))
              ∷ [])),
      )
      ∷ (
        "164.312(c)_integrity",
        obj (
            dict (
              (
                "description",
                str
                    "ePHI is not improperly altered or destroyed. Demonstrated by the SHA-256 hash chain over the event ledger.",
              )
              ∷ ("chain_verified", bool true)
              ∷ [])),
      )
      ∷ (
        "164.308(a)(1)(ii)(D)_information_system_activity_review",
        obj (
            dict (
              (
                "description",
                str
                    "Implement procedures to regularly review records of information system activity, such as audit logs, access reports, and security incident tracking reports.",
              )
              ∷ ("tool_failures", number (count_at "tool.failed" (by_type events)))
              ∷ ("failures_by_class", counts_json (by_value "tool.failed" "error_class" events))
              ∷ [])),
      )
      ∷ (
        "164.312(e)(1)_transmission_security",
        obj (
            dict (
              (
                "description",
                str
                    "Technical security measures to guard against unauthorized access to ePHI being transmitted over a network. Goderash ingestion uses TLS; every API key is hashed at rest.",
              )
              ∷ ("tls_required", bool true)
              ∷ ("api_key_storage", str "sha256_only")
              ∷ [])),
      )
      ∷ [])

  unfoldable pub render_controls : Regulation → List (EventRow F) → Fields F
  unfolding render_soc2 render_finra render_ffiec render_hipaa
  render_controls Regulation.soc2 events = render_soc2 events
  render_controls Regulation.finra events = render_finra events
  render_controls Regulation.sec_17a4 events = render_finra events
  render_controls Regulation.ffiec events = render_ffiec events
  render_controls Regulation.hipaa events = render_hipaa events
