-- ===== src/Session/Laws/Compaction.antt =====
-- TryCompact, ForceCompact and doCompact: the history is never touched, the window is given up only
-- for a summary that was stored, and a failure is not retried before the cooldown is over.
use mathlib.Core.Option.{some-injective}
use goharness.Prelude.{
  ℕ, ◌≡◌, ◌≢◌, refl, sym, Bool, true, false, List, [], ◌∷◌, Option, none, some, Text, length, inl,
  inr, ◌⊎◌,
}
use goharness.Session.Message.{Message}
use goharness.Session.Store.{SessionStore}
use goharness.Session.State.{Session}
use goharness.Session.Sanitize.{sanitize_messages_for_llm}
use goharness.Session.Compaction.{
  Event, Hooks, SessionState, summarise, deliver, ask, conclude, compact_with,
  execute_full_compaction, do_compact,
}
use goharness.Session.Laws.Loading.{ensure_loaded-loaded}

-- A summary of the messages that the sink stored.
pub record Delivered (hooks : Hooks) (active : List Message) : Type 0 where
  pub compact : List Message → Option Text
  pub sink : Text → Bool
  pub summary : Text
  pub has_compactor : hooks.compactor ≡ some compact
  pub has_sink : hooks.summary_sink ≡ some sink
  pub summarised : compact (sanitize_messages_for_llm active) ≡ some summary
  pub is_text : summary ≢ []
  pub stored : sink summary ≡ true

deliver-true :
    (sink : Text → Bool) (o : Option Text)
    → (deliver sink o).0 ≡ true
    → (t : Text) × (o ≡ some t) × (t ≢ []) × (sink t ≡ true)
deliver-true sink none h = cc h
deliver-true sink (some []) h = cc h
deliver-true sink (some (c ∷ t)) h = (c ∷ t, refl, λ e. cc e, h)

ask-text :
    (compact : List Message → Option Text) (ms : List Message) (t : Text)
    → ask compact ms ≡ some t
    → t ≢ []
    → compact ms ≡ some t
ask-text compact [] t e n = absurd (n (sym (some-injective [] t e)))
ask-text compact (m ∷ ms) t e n = e

-- A round of summarising that went through had nothing to summarise, or delivered a summary.
summarise-true :
    (hooks : Hooks) (sink : Text → Bool) (o : Option (List Message → Option Text))
    (ms : List Message)
    → hooks.summary_sink ≡ some sink
    → hooks.compactor ≡ o
    → (summarise sink o ms).0 ≡ true
    → (ms ≡ []) ⊎ Delivered hooks ms
unfolding summarise
summarise-true hooks sink none ms a b h = cc h
summarise-true hooks sink (some compact) [] a b h = inl refl
summarise-true hooks sink (some compact) (m ∷ ms) a b h =
    let (t, e, n, k) = deliver-true sink (ask compact (sanitize_messages_for_llm (m ∷ ms))) h in
    inr (record {
      compact = compact;
      sink = sink;
      summary = t;
      has_compactor = b;
      has_sink = a;
      summarised = ask-text compact (sanitize_messages_for_llm (m ∷ ms)) t e n;
      is_text = n;
      stored = k;
    })

module _ (st : SessionStore) (estimate_tokens : Text → ℕ) where
  -- What a compaction of `active` at time `now` may do to a session: keep the history, and either
  -- leave the window alone and note the failure, or empty the window with the summary stored.
  pub record Compacts (hooks : Hooks) (active : List Message) (now : ℕ) (s t : Session st.State)
      : Type 0 where
    pub messages_after : t.messages ≡ s.messages
    pub id_after : t.id ≡ s.id
    pub outcome :
        ((t.cursor ≡ s.cursor) × (t.last_compaction_fail_at ≡ now))
        ⊎ ((t.cursor ≡ length s.messages)
            × (t.last_compaction_fail_at ≡ 0)
            × ((active ≡ []) ⊎ Delivered hooks active))

  module _ (hooks : Hooks) (active : List Message) (now : ℕ) (s : Session st.State)
      (l : s.loaded ≡ true) where
    conclude-Compacts :
        (p : Bool × List Event)
        → (p.0 ≡ true → (active ≡ []) ⊎ Delivered hooks active)
        → Compacts hooks active now s (conclude st estimate_tokens s now p).0
    unfolding execute_full_compaction
    conclude-Compacts (true, events) d =
        rw
          (ensure_loaded-loaded st
            (record (execute_full_compaction st estimate_tokens s).0 {
              last_compaction_fail_at = 0;
            })
            l)
          (record { messages_after = refl; id_after = refl; outcome = inr (refl, refl, d refl) })
    conclude-Compacts (false, events) d =
        rw (ensure_loaded-loaded st (record s { last_compaction_fail_at = now }) l)
          (record { messages_after = refl; id_after = refl; outcome = inl (refl, refl) })

  module _ (hooks : Hooks) (s : Session st.State) (state : SessionState) (now : ℕ)
      (l : s.loaded ≡ true) where
    compact_with-Compacts :
        (o : Option (Text → Bool))
        → hooks.summary_sink ≡ o
        → Compacts hooks state.active_messages now s
            (compact_with st estimate_tokens hooks.compactor s state now o).0
    compact_with-Compacts none e = record {
      messages_after = refl;
      id_after = refl;
      outcome = inl (refl, refl);
    }
    compact_with-Compacts (some sink) e =
        conclude-Compacts hooks state.active_messages now s l
          (summarise sink hooks.compactor state.active_messages)
          (summarise-true hooks sink hooks.compactor state.active_messages e refl)

    -- On a loaded session a compaction never changes the history. Either the cursor stays and the
    -- time of the failure is noted, or the cursor moves to the end, the failure time is cleared,
    -- and the summary of the snapshot was stored by the sink, unless the snapshot was empty.
    pub do_compact-Compacts :
        Compacts hooks state.active_messages now s
          (do_compact st estimate_tokens hooks s state now).0
    unfolding do_compact
    do_compact-Compacts = compact_with-Compacts hooks.summary_sink refl
