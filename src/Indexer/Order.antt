-- ===== src/Indexer/Order.antt =====
-- agentix/packages/indexer/storage/event-store.ts: the order in which a query of the whole log gives it.
use atf.Common.{
  ℕ, zero, suc, ◌≤◌, Bool, true, false, ◌&&◌, ◌||◌, Option, none, some, List, [], ◌∷◌, ◌++◌, every,
  any, length, reverse, leb, ltb, ◌≡◌, refl, sym, ◌∙◌, ap, arith, and_left, and_right,
}
use mathlib.Core.List.{reverse-cons, reverse-append, append-nil}
use mathlib.Core.Path.{subst}
use atf.Indexer.{
  IndexerEvent, DayFile, EventFilter, matches, collect, newest_first, query, query_in_range,
}

-- The lines that are events.
abbrev events_of : List (Option IndexerEvent) → List IndexerEvent
events_of [] = []
events_of (none ∷ lines) = events_of lines
events_of (some e ∷ lines) = e ∷ events_of lines

-- The events of the log, those of an earlier day before those of a later one, and those of a day in the
-- order in which they were appended.
abbrev pub logged_events : List DayFile → List IndexerEvent
logged_events [] = []
logged_events (f ∷ files) = events_of f.lines ++ logged_events files

module _ {A : Type 0} where
  any-last : (p : A → Bool) (x : A) (ys : List A) → any p (ys ++ x ∷ []) ≡ (p x || any p ys)
  any-last p x [] = refl
  any-last p x (y ∷ ys) = ground (arith, any-last p x ys)

  pub any-reverse : (p : A → Bool) (xs : List A) → any p (reverse xs) ≡ any p xs
  any-reverse p [] = refl
  any-reverse p (x ∷ xs) =
      ap (any p) (reverse-cons x xs)
      ∙ any-last p x (reverse xs)
      ∙ ap (λ b. p x || b) (any-reverse p xs)

  every-last : (p : A → Bool) (x : A) (ys : List A) → every p (ys ++ x ∷ []) ≡ (p x && every p ys)
  every-last p x [] = refl
  every-last p x (y ∷ ys) = ground (arith, every-last p x ys)

  every-reverse : (p : A → Bool) (xs : List A) → every p (reverse xs) ≡ every p xs
  every-reverse p [] = refl
  every-reverse p (x ∷ xs) =
      ap (every p) (reverse-cons x xs)
      ∙ every-last p x (reverse xs)
      ∙ ap (λ b. p x && b) (every-reverse p xs)

  length-last : (x : A) (ys : List A) → length (ys ++ x ∷ []) ≡ suc (length ys)
  length-last x [] = refl
  length-last x (y ∷ ys) = ap (λ n. suc n) (length-last x ys)

  length-reverse : (xs : List A) → length (reverse xs) ≡ length xs
  length-reverse [] = refl
  length-reverse (x ∷ xs) =
      ap length (reverse-cons x xs)
      ∙ length-last x (reverse xs)
      ∙ ap (λ n. suc n) (length-reverse xs)

events_of-append :
    (xs ys : List (Option IndexerEvent)) → events_of (xs ++ ys) ≡ events_of xs ++ events_of ys
events_of-append [] ys = refl
events_of-append (none ∷ xs) ys = events_of-append xs ys
events_of-append (some e ∷ xs) ys = ap (λ l. e ∷ l) (events_of-append xs ys)

events_of-reverse :
    (lines : List (Option IndexerEvent)) → events_of (reverse lines) ≡ reverse (events_of lines)
events_of-reverse [] = refl
events_of-reverse (none ∷ lines) =
    ap events_of (reverse-cons none lines)
    ∙ events_of-append (reverse lines) (none ∷ [])
    ∙ append-nil (events_of (reverse lines))
    ∙ events_of-reverse lines
events_of-reverse (some e ∷ lines) =
    ap events_of (reverse-cons (some e) lines)
    ∙ events_of-append (reverse lines) (some e ∷ [])
    ∙ ap (λ l. l ++ e ∷ []) (events_of-reverse lines)
    ∙ sym (reverse-cons e (events_of lines))

-- The newest lines first: the events of the log in reverse.
newest_first-events :
    (files : List DayFile) → events_of (newest_first files) ≡ reverse (logged_events files)
unfolding newest_first
newest_first-events [] = refl
newest_first-events (f ∷ files) =
    events_of-append (newest_first files) (reverse f.lines)
    ∙ ap (λ l. l ++ events_of (reverse f.lines)) (newest_first-events files)
    ∙ ap (λ l. reverse (logged_events files) ++ l) (events_of-reverse f.lines)
    ∙ sym (reverse-append (events_of f.lines) (logged_events files))

none_left : (events : List IndexerEvent) → length events ≤ 0 → events ≡ []
none_left [] h = refl
none_left (e ∷ events) h = absurd (omega (arith, h))

-- The filter of `rebuildAll`'s query.
abbrev whole : EventFilter
whole = record {
  contract_name = "";
  event_name = "";
  from_block = 0;
  to_block = 999_999_999;
  limit = 100_000;
}

every-matches :
    (events : List IndexerEvent)
    → every (λ e. leb e.block_number 999_999_999) events ≡ true
    → every (matches whole) events ≡ true
unfolding matches
every-matches [] h = refl
every-matches (e ∷ events) h =
    let low = and_left (leb e.block_number 999_999_999) _ h in
    let fine : ltb 999_999_999 e.block_number ≡ false = ground (arith, low) in
    rw fine (every-matches events (and_right (leb e.block_number 999_999_999) _ h))

-- With room for all events, and where all match, no event is left out.
collect-all :
    (f : EventFilter) (left : ℕ) (lines : List (Option IndexerEvent))
    → length (events_of lines) ≤ left
    → every (matches f) (events_of lines) ≡ true
    → collect f left lines ≡ events_of lines
unfolding collect
collect-all f left [] room all = refl
collect-all f zero (none ∷ lines) room all = sym (none_left (events_of lines) room)
collect-all f zero (some e ∷ lines) room all = absurd (omega (arith, room))
collect-all f (suc left) (none ∷ lines) room all = collect-all f (suc left) lines room all
collect-all f (suc left) (some e ∷ lines) room all = rw (and_left (matches f e) _ all) (
    ap (λ l. e ∷ l)
      (collect-all f left lines (omega (arith, room)) (and_right (matches f e) _ all)))

-- A query of the whole log gives all of its events, the newest first, if there are no more than 100,000
-- and none is of a block above 999,999,999.
pub query_in_range-order :
    (files : List DayFile)
    → length (logged_events files) ≤ 100_000
    → every (λ e. leb e.block_number 999_999_999) (logged_events files) ≡ true
    → query_in_range 0 999_999_999 "" files ≡ reverse (logged_events files)
unfolding query_in_range query
query_in_range-order files room low =
    let newest = newest_first-events files in
    collect-all whole 100_000 (newest_first files)
      (subst (λ l. length l ≤ 100_000) (sym newest)
        (subst (λ n. n ≤ 100_000) (sym (length-reverse (logged_events files))) room))
      (subst (λ l. every (matches whole) l ≡ true) (sym newest)
        (every-reverse (matches whole) (logged_events files)
          ∙ every-matches (logged_events files) low))
    ∙ newest
