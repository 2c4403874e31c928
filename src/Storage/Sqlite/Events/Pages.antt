-- ===== src/Storage/Sqlite/Events/Pages.antt =====
-- The pages of `ListEvents`.
use gi_con_mon.Common.{
  str_eq, ◌||◌, ◌&&◌, ◌==◌, ◌≡◌, refl, ◌∙◌, ap, arith, Bool, List, ℕ, none, pos, ◌<◌, map, keep,
  length,
}
use mathlib.Core.List.Perm
use gi_con_mon.Model.{Time, Event}
use gi_con_mon.Storage.{Result, EventQuery, Page, ok}
use gi_con_mon.Storage.Sql.{Table, IsTable, IsOrder, Listing, take, drop, window}
use gi_con_mon.Storage.Sql.Sorting.{sort, sort-Listing, Sorted-unique, NoTies}
use gi_con_mon.Storage.Sqlite.Where.{all_meet, event_conds, event_meets}
use gi_con_mon.Storage.Sqlite.Statements.{list_page, limit_or-pos}
use gi_con_mon.Storage.Sqlite.Events.{list_events, scan_event}
use gi_con_mon.Storage.Sqlite.Rows.{EventRow}
use gi_con_mon.Storage.Json.{Json}

-- What a query asks of an event: a field of it that is not the zero value restricts the listing.
abbrev pub is_asked : {Text : Type 0} → (Time → Time → Bool) → EventQuery → EventRow Text → Bool
is_asked upto q r =
    (str_eq q.target_id "" || str_eq r.target_id q.target_id)
    && (q.since == 0 || upto q.since r.timestamp)
    && (q.until == 0 || upto r.timestamp q.until)

is_asked-all_meet :
    {Text : Type 0} (upto : Time → Time → Bool) (q : EventQuery) (r : EventRow Text)
    → all_meet (event_meets upto r) (event_conds q) ≡ is_asked upto q r
unfolding all_meet event_conds
is_asked-all_meet upto q r = ground arith

module _ {F : Type 0} (J : Json F) (T : Table (EventRow J.Text)) (table : IsTable (λ r. r.id) T)
    (upto : Time → Time → Bool) (lawful : IsOrder upto) where
  -- Newest first, as the engine compares the instants.
  abbrev pub newest_first : EventRow J.Text → EventRow J.Text → Bool
  newest_first a b = upto b.timestamp a.timestamp

  newest_first-IsOrder : IsOrder newest_first
  newest_first-IsOrder = record {
    total = λ a b. lawful.total b.timestamp a.timestamp;
    transitive = λ a b c h k. lawful.transitive c.timestamp b.timestamp a.timestamp k h;
  }

  module _ (q : EventQuery) (s : T.State) where
    -- The rows of the table that the query asks for.
    abbrev pub asked : List (EventRow J.Text)
    asked = keep (is_asked upto q) (table.rows s)

    -- The page at a place of a listing.
    abbrev pub page_of : List (EventRow J.Text) → ℕ → ℕ → Result (Page (Event F))
    page_of xs n k =
        ok (record { items = map (scan_event J) (take n (drop k xs)); total = pos (length asked) })

    abbrev listing : List (EventRow J.Text)
    listing = sort newest_first asked

    -- Each query sorts anew, and without ties to the same list.
    selected :
        NoTies newest_first asked
        → (xs : List (EventRow J.Text)) → Listing newest_first asked xs
        → xs ≡ listing
    selected ties xs l =
        Sorted-unique newest_first newest_first-IsOrder xs listing
          (λ a b m k. ties a b ((Perm.mem_iff l.0).1 m) ((Perm.mem_iff l.0).1 k)) l.1
          (sort-Listing newest_first newest_first-IsOrder asked).1
          (Perm.trans (Perm.symm l.0) (sort-Listing newest_first newest_first-IsOrder asked).0)

    test_is :
        (λ (r : EventRow J.Text). all_meet (event_meets upto r) (event_conds q)) ≡ is_asked upto q
    test_is = λ i r. is_asked-all_meet upto q r i

    page_is :
        NoTies newest_first asked
        → (n k : ℕ)
        → list_page T none none (scan_event J) (is_asked upto q) newest_first (pos n) (pos k) s
          ≡ page_of listing n k
    unfolding list_page window
    page_is ties n k =
        let (ys, l, is) =
          table.select-Listing (is_asked upto q) newest_first (pos n) (pos k) s
            newest_first-IsOrder in
        rw (is, selected ties ys l, table.count-rows (is_asked upto q) s) refl

    -- Over a table that keeps SQLite's promises, whose order of the texts of instants is total and
    -- transitive: where that order tells the instants of any two of the asked events apart, and the two
    -- statements of each query succeed, all pages of `ListEvents` are windows of one list, which has the
    -- events that the query asks for, each once, newest first. So paging loses no event and repeats
    -- none, and every page tells their number. The limit is positive, the offset not negative.
    pub pages_of_one_list :
        NoTies newest_first asked
        → (xs : List (EventRow J.Text)) × Listing newest_first asked xs
          × ((n k : ℕ)
              → 0 < n
              → list_events J T upto none none (record q { limit = pos n; offset = pos k }) s
                ≡ page_of xs n k)
    unfolding list_events event_conds
    pages_of_one_list ties = (
      listing,
      sort-Listing newest_first newest_first-IsOrder asked,
      λ n k positive. rw (limit_or-pos (pos 50) n positive) (
          ap (λ test. list_page T none none (scan_event J) test newest_first (pos n) (pos k) s)
            test_is
          ∙ page_is ties n k),
    )
