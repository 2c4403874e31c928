-- ===== src/Fsm/Flap/History.antt =====
-- The flap tracker against the full log of state changes: trimming as it goes, the tracker of
-- internal/fsm/flap.go still counts every change of the window.
use gi_con_mon.Fsm.Flap.Log.{
  Call, InOrder, ask, change, forget, log_all, log_call, perform, perform_all, Tracks, call_time,
}
use gi_con_mon.Common.{
  String, true, ◌≡◌, refl, sym, ap, ◌∙◌, List, [], ◌∷◌, ◌++◌, ℕ, ◌≤◌, ◌-◌, arith, length, keep, All,
  All-append, if◌then◌else◌, str_eq, eq_iff, pos, Bool-cases, inl, inr, lookup, lookup-insert,
  lookup-delete,
}
use gi_con_mon.Model.{Time, add_neg}
use gi_con_mon.Fsm.Flap.{
  FlapTracker, new_flap_tracker, skip_before, trim, history_of, record_change, count, remove,
}
use gi_con_mon.Fsm.Flap.Window.{
  Ascending-append, within, skip_before-keep, skip_before-skip_before, resume, skip_before-append,
}

pub history_of-record_change :
    (id j : String) (t : Time) (ft : FlapTracker)
    → history_of (record_change j t ft) id
      ≡ (if str_eq j id then trim ft (history_of ft j) t ++ t ∷ [] else history_of ft id)
unfolding history_of record_change
history_of-record_change id j t ft =
    ground (arith, lookup-insert j id (trim ft (history_of ft j) t ++ t ∷ []) ft.history)

pub history_of-count :
    (id j : String) (t : Time) (ft : FlapTracker)
    → history_of (count j t ft).0 id
      ≡ (if str_eq j id then trim ft (history_of ft j) t else history_of ft id)
unfolding history_of count
history_of-count id j t ft =
    ground (arith, lookup-insert j id (trim ft (history_of ft j) t) ft.history)

pub history_of-remove :
    (id j : String) (ft : FlapTracker)
    → history_of (remove j ft) id ≡ (if str_eq j id then [] else history_of ft id)
unfolding history_of remove
history_of-remove id j ft = ground (arith, lookup-delete j id ft.history)

-- Time passes: less is asked of the cutoffs, and more of the past is past.
All-le_trans :
    (now t : Time) (log : List Time) → now ≤ t → All (λ u. u ≤ now) log → All (λ u. u ≤ t) log
All-le_trans now t [] h a = tt
All-le_trans now t (u ∷ us) h a = (omega (arith, a.0), All-le_trans now t us h a.1)

module _ (id : String) (w : ℕ) where
  later :
      (now t : Time) (ft : FlapTracker) (log : List Time)
      → now ≤ t
      → Tracks id w now ft log
      → Tracks id w t ft log
  later now t ft log h r = record {
    window_is = r.window_is;
    agree = λ c k. r.agree c (omega arith);
    sorted = r.sorted;
    past = All-le_trans now t log h r.past;
  }

  -- At one instant: the two histories that differ by what lies before the cutoff still agree.
  agree-append :
      (t c : Time) (h log : List Time)
      → skip_before (t - w) h ≡ skip_before (t - w) log
      → t - w ≤ c
      → skip_before c (skip_before (t - w) h ++ t ∷ []) ≡ skip_before c (log ++ t ∷ [])
  agree-append t c h log e k =
      skip_before-append c (skip_before (t - w) h) (t ∷ [])
      ∙ ap (λ xs. resume c xs (t ∷ []))
          (ap (skip_before c) e ∙ skip_before-skip_before (t - w) c log k)
      ∙ sym (skip_before-append c log (t ∷ []))

  trim_lem :
      (t : Time) (ft : FlapTracker) (ts : List Time)
      → ft.window ≡ pos w
      → trim ft ts t ≡ skip_before (t - w) ts
  unfolding trim
  trim_lem t ft ts e = ap (λ v. skip_before (add_neg t v) ts) e

  trim-window :
      (t : Time) (j : String) (ft : FlapTracker)
      → str_eq j id ≡ true
      → ft.window ≡ pos w
      → trim ft (history_of ft j) t ≡ skip_before (t - w) (history_of ft id)
  trim-window t j ft same e =
      trim_lem t ft (history_of ft j) e
      ∙ ap (λ k. skip_before (t - w) (history_of ft k)) ((eq_iff j id).0 same)

  perform-change :
      (t : Time) (j : String) (ft : FlapTracker) (log : List Time)
      → Tracks id w t ft log
      → Tracks id w t (perform (change j t) ft) (log_call id (change j t) log)
  unfolding perform log_call
  perform-change t j ft log r = elim (Bool-cases (str_eq j id)) [
    | inl same ↦ rw same (record {
      window_is = unfold record_change in r.window_is;
      agree = λ c k.
          rw (history_of-record_change, same, trim-window t j ft same r.window_is)
            (agree-append t c (history_of ft id) log (r.agree (t - w) (omega arith)) k);
      sorted = Ascending-append 0 t log (omega arith) r.past r.sorted;
      past = All-append (λ u. u ≤ t) log (t ∷ []) r.past (omega arith);
    })
    | inr other ↦ rw other (record {
      window_is = unfold record_change in r.window_is;
      agree = λ c k. rw (history_of-record_change, other) (r.agree c k);
      sorted = r.sorted;
      past = r.past;
    })
  ]

  perform-ask :
      (t : Time) (j : String) (ft : FlapTracker) (log : List Time)
      → Tracks id w t ft log
      → Tracks id w t (perform (ask j t) ft) (log_call id (ask j t) log)
  unfolding perform log_call
  perform-ask t j ft log r = record {
    window_is = unfold count in r.window_is;
    agree = λ c k. elim (Bool-cases (str_eq j id)) [
      | inl same ↦
          rw (history_of-count, same, trim-window t j ft same r.window_is)
            (skip_before-skip_before (t - w) c (history_of ft id) k ∙ r.agree c k)
      | inr other ↦ rw (history_of-count, other) (r.agree c k)
    ];
    sorted = r.sorted;
    past = r.past;
  }

  perform-forget :
      (t : Time) (j : String) (ft : FlapTracker) (log : List Time)
      → Tracks id w t ft log
      → Tracks id w t (perform (forget j) ft) (log_call id (forget j) log)
  unfolding perform log_call
  perform-forget t j ft log r = elim (Bool-cases (str_eq j id)) [
    | inl same ↦ rw same (record {
      window_is = unfold remove in r.window_is;
      agree = λ c k. rw (history_of-remove, same);
      sorted = tt;
      past = tt;
    })
    | inr other ↦ rw other (record {
      window_is = unfold remove in r.window_is;
      agree = λ c k. rw (history_of-remove, other) (r.agree c k);
      sorted = r.sorted;
      past = r.past;
    })
  ]

  perform-Tracks :
      (now : Time) (c : Call) (ft : FlapTracker) (log : List Time)
      → now ≤ call_time now c
      → Tracks id w now ft log
      → Tracks id w (call_time now c) (perform c ft) (log_call id c log)
  perform-Tracks now (change j t) ft log h r = perform-change t j ft log (later now t ft log h r)
  perform-Tracks now (ask j t) ft log h r = perform-ask t j ft log (later now t ft log h r)
  perform-Tracks now (forget j) ft log h r = perform-forget now j ft log r

  perform_all-Tracks :
      (now end : Time) (cs : List Call) (ft : FlapTracker) (log : List Time)
      → InOrder now cs end
      → Tracks id w now ft log
      → Tracks id w end (perform_all cs ft) (log_all id cs log)
  unfolding perform_all log_all
  perform_all-Tracks now end [] ft log h r = later now end ft log h r
  perform_all-Tracks now end (c ∷ cs) ft log h r =
      perform_all-Tracks (call_time now c) end cs (perform c ft) (log_call id c log) h.1
        (perform-Tracks now c ft log h.0 r)

  count-Tracks :
      (now : Time) (ft : FlapTracker) (log : List Time)
      → Tracks id w now ft log
      → (count id now ft).1 ≡ length (keep (within (now - w)) log)
  unfolding count
  count-Tracks now ft log r = ap length (
      trim_lem now ft (history_of ft id) r.window_is
      ∙ r.agree (now - w) (omega arith)
      ∙ skip_before-keep (now - w) 0 log r.sorted)

  new-Tracks : Tracks id w 0 (new_flap_tracker (pos w)) []
  unfolding new_flap_tracker history_of
  new-Tracks = record {
    window_is = refl;
    agree = λ c k. unfold lookup in refl;
    sorted = tt;
    past = tt;
  }

  -- Whatever calls for whatever targets came before, in the order of their instants, `Count` at
  -- `now` is the number of the target's changes since its last removal that lie at most the
  -- window's width before `now`: trimming loses none of them.
  pub count-perform_all :
      (cs : List Call) (now : Time)
      → InOrder 0 cs now
      → (count id now (perform_all cs (new_flap_tracker (pos w)))).1
        ≡ length (keep (within (now - w)) (log_all id cs []))
  count-perform_all cs now h =
      count-Tracks now (perform_all cs (new_flap_tracker (pos w))) (log_all id cs [])
        (perform_all-Tracks 0 now cs (new_flap_tracker (pos w)) [] h new-Tracks)
