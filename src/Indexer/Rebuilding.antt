-- ===== src/Indexer/Rebuilding.antt =====
-- agentix/packages/indexer/storage/state-reconstructor.ts: what becomes of a session that was revoked when
-- the tables are rebuilt.
use atf.Common.{
  ◌≤◌, length, leb, reverse, Bool, true, false, not, ◌&&◌, String, List, [], ◌∷◌, ◌++◌, keep, any,
  every, if◌then◌else◌, str_eq, str_eq_iff, ◌≡◌, refl, sym, ◌∙◌, ap, arith, Bool-cases, inl, inr,
}
use mathlib.Core.Path.{subst}
use mathlib.Core.List.{reverse-append, reverse-cons, append_assoc}
use atf.Indexer.{EventArgs, IndexerEvent, DayFile}
use atf.Indexer.Order.{logged_events, query_in_range-order, any-reverse}
use atf.Indexer.Tables.{
  SessionEntry, Tables, session_created, session_revoked, rebuild_event, rebuild_events,
  rebuild_all,
}

-- The event creates or revokes the session.
abbrev pub names_session : String → IndexerEvent → Bool
names_session id e =
    str_eq e.args.session_id id
    && any (str_eq e.event_name) ("SessionCreated" ∷ "SessionRevoked" ∷ [])

-- Each row of the session is not revoked, and there is one.
abbrev is_open_row : String → SessionEntry → Bool
is_open_row id r = if str_eq r.session_id id then not r.revoked else true

abbrev pub IsOpenSession : String → List SessionEntry → Type 0
IsOpenSession id rows =
    (any (λ r. str_eq r.session_id id) rows ≡ true) × (every (is_open_row id) rows ≡ true)

any-append_last :
    {A : Type 0} (p : A → Bool) (xs : List A) (x : A) → p x ≡ true → any p (xs ++ x ∷ []) ≡ true
any-append_last p [] x h = rw h refl
any-append_last p (y ∷ xs) x h = ground (arith, any-append_last p xs x h)

kept_open :
    (args : EventArgs) (rows : List SessionEntry)
    → every (is_open_row args.session_id) (session_created args rows) ≡ true
unfolding session_created
kept_open args [] = let own = (str_eq_iff args.session_id args.session_id).1 refl in rw own refl
kept_open args (r ∷ rows) =
    let later = kept_open args rows in
    elim (Bool-cases (str_eq r.session_id args.session_id)) [
      | inl same ↦ rw same later
      | inr other ↦ rw (other, other) later
    ]

session_created-IsOpenSession :
    (args : EventArgs) (rows : List SessionEntry)
    → IsOpenSession args.session_id (session_created args rows)
unfolding session_created
session_created-IsOpenSession args rows = (
  any-append_last (λ r. str_eq r.session_id args.session_id)
      (keep (λ r. not (str_eq r.session_id args.session_id)) rows) _
      ((str_eq_iff args.session_id args.session_id).1 refl),
  kept_open args rows,
)

-- What replaces or changes rows of another session leaves these alone.
module _ (id : String) (args : EventArgs) (other : str_eq args.session_id id ≡ false) where
  elsewhere :
      (r : SessionEntry)
      → str_eq r.session_id args.session_id ≡ true
      → str_eq r.session_id id ≡ false
  elsewhere r same =
      ap (λ x. str_eq x id) ((str_eq_iff r.session_id args.session_id).0 same) ∙ other

  any-session_created :
      (rows : List SessionEntry)
      → any (λ r. str_eq r.session_id id) (session_created args rows)
        ≡ any (λ r. str_eq r.session_id id) rows
  unfolding session_created
  any-session_created [] = rw other refl
  any-session_created (r ∷ rows) =
      let later = any-session_created rows in
      elim (Bool-cases (str_eq r.session_id args.session_id)) [
        | inl same ↦ rw (same, elsewhere r same) later
        | inr apart ↦ rw (apart, later) refl
      ]

  every-session_created :
      (rows : List SessionEntry)
      → every (is_open_row id) (session_created args rows) ≡ every (is_open_row id) rows
  unfolding session_created
  every-session_created [] = rw other refl
  every-session_created (r ∷ rows) =
      let later = every-session_created rows in
      elim (Bool-cases (str_eq r.session_id args.session_id)) [
        | inl same ↦ rw (same, elsewhere r same) later
        | inr apart ↦ rw (apart, later) refl
      ]

  any-session_revoked :
      (rows : List SessionEntry)
      → any (λ r. str_eq r.session_id id) (session_revoked args rows)
        ≡ any (λ r. str_eq r.session_id id) rows
  unfolding session_revoked
  any-session_revoked [] = refl
  any-session_revoked (r ∷ rows) =
      let later = any-session_revoked rows in
      elim (Bool-cases (str_eq r.session_id args.session_id)) [
        | inl same ↦ rw (same, elsewhere r same) later
        | inr apart ↦ rw (apart, later) refl
      ]

  every-session_revoked :
      (rows : List SessionEntry)
      → every (is_open_row id) (session_revoked args rows) ≡ every (is_open_row id) rows
  unfolding session_revoked
  every-session_revoked [] = refl
  every-session_revoked (r ∷ rows) =
      let later = every-session_revoked rows in
      elim (Bool-cases (str_eq r.session_id args.session_id)) [
        | inl same ↦ rw (same, elsewhere r same) later
        | inr apart ↦ rw (apart, later) refl
      ]

rebuild_event-sessions :
    (e : IndexerEvent) (t : Tables)
    → str_eq e.event_name "SessionCreated" ≡ false
    → str_eq e.event_name "SessionRevoked" ≡ false
    → (rebuild_event e t).sessions ≡ t.sessions
unfolding rebuild_event
rebuild_event-sessions e t not_created not_revoked = ground (arith, not_created, not_revoked)

rebuild_event-created :
    (e : IndexerEvent) (t : Tables)
    → str_eq e.event_name "SessionCreated" ≡ true
    → (rebuild_event e t).sessions ≡ session_created e.args t.sessions
unfolding rebuild_event
rebuild_event-created e t is =
    let name : e.event_name ≡ "SessionCreated" = (str_eq_iff e.event_name "SessionCreated").0 is in
    let first : str_eq e.event_name "WalletCreated" ≡ false =
      ap (λ n. str_eq n "WalletCreated") name in
    rw (first, is) refl

rebuild_event-revoked :
    (e : IndexerEvent) (t : Tables)
    → str_eq e.event_name "SessionRevoked" ≡ true
    → (rebuild_event e t).sessions ≡ session_revoked e.args t.sessions
unfolding rebuild_event
rebuild_event-revoked e t is =
    let name : e.event_name ≡ "SessionRevoked" = (str_eq_iff e.event_name "SessionRevoked").0 is in
    let first : str_eq e.event_name "WalletCreated" ≡ false =
      ap (λ n. str_eq n "WalletCreated") name in
    let second : str_eq e.event_name "SessionCreated" ≡ false =
      ap (λ n. str_eq n "SessionCreated") name in
    rw (first, second, is) refl

rebuild_event-IsOpenSession :
    (id : String) (e : IndexerEvent) (t : Tables)
    → names_session id e ≡ false
    → IsOpenSession id t.sessions
    → IsOpenSession id (rebuild_event e t).sessions
rebuild_event-IsOpenSession id e t silent (there, open_rows) =
    elim (Bool-cases (str_eq e.event_name "SessionCreated")) [
      | inl created ↦
          let other : str_eq e.args.session_id id ≡ false = ground (arith, silent, created) in
          subst (IsOpenSession id) (sym (rebuild_event-created e t created)) (
            any-session_created id e.args other t.sessions ∙ there,
            every-session_created id e.args other t.sessions ∙ open_rows,
          )
      | inr not_created ↦ elim (Bool-cases (str_eq e.event_name "SessionRevoked")) [
        | inl revoked ↦
            let other : str_eq e.args.session_id id ≡ false =
              ground (arith, silent, not_created, revoked) in
            subst (IsOpenSession id) (sym (rebuild_event-revoked e t revoked)) (
              any-session_revoked id e.args other t.sessions ∙ there,
              every-session_revoked id e.args other t.sessions ∙ open_rows,
            )
        | inr not_revoked ↦
            subst (IsOpenSession id) (sym (rebuild_event-sessions e t not_created not_revoked))
              (there, open_rows)
      ]
    ]

rebuild_events-IsOpenSession :
    (id : String) (events : List IndexerEvent) (t : Tables)
    → any (names_session id) events ≡ false
    → IsOpenSession id t.sessions
    → IsOpenSession id (rebuild_events events t).sessions
unfolding rebuild_events
rebuild_events-IsOpenSession id [] t silent h = h
rebuild_events-IsOpenSession id (e ∷ events) t silent h =
    rebuild_events-IsOpenSession id events (rebuild_event e t) (ground (arith, silent))
      (rebuild_event-IsOpenSession id e t (ground (arith, silent)) h)

rebuild_events-append :
    (newer older : List IndexerEvent) (t : Tables)
    → rebuild_events (newer ++ older) t ≡ rebuild_events older (rebuild_events newer t)
unfolding rebuild_events
rebuild_events-append [] older t = refl
rebuild_events-append (e ∷ newer) older t = rebuild_events-append newer older (rebuild_event e t)

-- A creation after which the rebuilding meets nothing of the session leaves it open.
rebuild_events-revives :
    (newer older : List IndexerEvent) (created : IndexerEvent) (t : Tables)
    → str_eq created.event_name "SessionCreated" ≡ true
    → any (names_session created.args.session_id) older ≡ false
    → IsOpenSession created.args.session_id (rebuild_events (newer ++ created ∷ older) t).sessions
unfolding rebuild_events
rebuild_events-revives newer older created t is silent =
    subst (λ u. IsOpenSession created.args.session_id u.sessions)
      (sym (rebuild_events-append newer (created ∷ older) t))
      (rebuild_events-IsOpenSession created.args.session_id older
        (rebuild_event created (rebuild_events newer t)) silent
        (subst (IsOpenSession created.args.session_id)
          (sym (rebuild_event-created created (rebuild_events newer t) is))
          (session_created-IsOpenSession created.args (rebuild_events newer t).sessions)))

reverse-middle :
    (older newer : List IndexerEvent) (e : IndexerEvent)
    → reverse (older ++ e ∷ newer) ≡ reverse newer ++ e ∷ reverse older
reverse-middle older newer e =
    reverse-append older (e ∷ newer)
    ∙ ap (λ l. l ++ reverse older) (reverse-cons e newer)
    ∙ append_assoc (reverse newer) (e ∷ []) (reverse older)

-- The log holds a creation of a session, with events before it of which none creates or revokes the
-- session, and any events after it, its revocation among them. If the log holds no more than 100,000
-- events and none of a block above 999,999,999, then the rebuilt tables have the session, and no row
-- of it is revoked: the query gives the newest events first, and they are applied in that order.
pub rebuild_all-revives :
    (files : List DayFile) (t : Tables) (older newer : List IndexerEvent) (created : IndexerEvent)
    → logged_events files ≡ older ++ created ∷ newer
    → length (logged_events files) ≤ 100_000
    → every (λ e. leb e.block_number 999_999_999) (logged_events files) ≡ true
    → str_eq created.event_name "SessionCreated" ≡ true
    → any (names_session created.args.session_id) older ≡ false
    → IsOpenSession created.args.session_id (rebuild_all files t).sessions
unfolding rebuild_all
rebuild_all-revives files t older newer created given room low is silent =
    subst (λ events. IsOpenSession created.args.session_id (rebuild_events events t).sessions)
      (sym (
        query_in_range-order files room low
        ∙ ap reverse given
        ∙ reverse-middle older newer created))
      (rebuild_events-revives (reverse newer) (reverse older) created t is
        (any-reverse (names_session created.args.session_id) older ∙ silent))
