-- ===== src/Receipts/Reminder/Once.antt =====
-- How often each reminder is sent over the sweeps of less than 30 days, the life of a marker.
use testify.Common.{
  ℕ, Bool, true, false, List, [], ◌∷◌, ◌≡◌, refl, ap, ◌&&◌, ◌||◌, if◌then◌else◌, count, Bool-cases,
  inl, inr, arith, ◌≤◌, ◌<◌,
}
use testify.Models.{Database, PaymentReceipt}
use testify.Receipts.Reminder.{
  PostReply, Marker, marker_eq, Reminder, Markers, Sweep, remind, remind_all, due,
  repost_unnotified_receipts, pending_receipt_reminder_job, marker_ttl_seconds, expires_at,
}

marker_eq-eq : (m n : Marker) → marker_eq m n ≡ true → m ≡ n
marker_eq-eq m n h = ground arith

-- Some reminder of the list has this marker, and its send returns.
unfoldable pub is_sendable : (Reminder → Bool) → Marker → List Reminder → Bool
is_sendable sends m [] = false
is_sendable sends m (r ∷ reminders) =
    (marker_eq r.marker m && sends r) || is_sendable sends m reminders

-- One sweep: Telegram's answers, the time and the database that it reads.
pub record Round : Type 0 where
  pub post : PaymentReceipt → PostReply
  pub sends : Reminder → Bool
  pub now : ℕ
  pub db : Database

-- In some sweep the reminder was due and its send returned.
unfoldable pub was_sendable : Marker → List Round → Bool
unfolding is_sendable
was_sendable m [] = false
was_sendable m (x ∷ rounds) =
    is_sendable x.sends m (due x.now (repost_unnotified_receipts x.post x.now x.db))
    || was_sendable m rounds

-- How often a reminder was sent.
abbrev pub times_sent : {Redis : Type 0} → Marker → Sweep Redis → ℕ
times_sent m s = count (λ (r : Reminder). marker_eq r.marker m) s.sent

abbrev pub one_if : Bool → ℕ
one_if b = if b then 1 else 0

-- The sweeps come one after the other, from a time on and before another.
abbrev pub IsWithin : ℕ → ℕ → List Round → Type 0
IsWithin start end [] = Unit
IsWithin start end (x ∷ rounds) = (start ≤ x.now) × (x.now < end) × IsWithin x.now end rounds

module _ (markers : Markers) where
  open markers use {State, exists}

  unfoldable pub sweeps : List Round → Sweep State → Sweep State
  unfolding pending_receipt_reminder_job
  sweeps [] s = s
  sweeps (x ∷ rounds) s =
      sweeps rounds (pending_receipt_reminder_job markers x.post x.sends x.now x.db s).1

  -- From a time on and before another, the marker is there, or it is not.
  abbrev Is : Bool → ℕ → ℕ → Marker → State → Type 0
  Is there start end m s = (t : ℕ) → start ≤ t → t < end → exists t m s ≡ there

  module _ (sends : Reminder → Bool) (m : Marker) (now end : ℕ) (soon : now < end)
      (lasting : end ≤ expires_at marker_ttl_seconds now) where
    exists-remind :
        (r : Reminder) (there : Bool) (s : Sweep State) (t : ℕ)
        → now ≤ t
        → t < end
        → exists now m s.redis ≡ there
        → exists t m s.redis ≡ there
        → exists t m (remind markers sends now r s).redis
          ≡ (there || (marker_eq r.marker m && sends r))
    unfolding remind
    exists-remind r there s t from before first then' =
        let set_nx = markers.set_nx marker_ttl_seconds now r.marker s.redis in
        elim (Bool-cases (marker_eq r.marker m)) [
          | inl same ↦
              let named = ap (λ k. exists now k s.redis) (marker_eq-eq r.marker m same) in
              ground (
                arith,
                markers.set_nx-exists marker_ttl_seconds now r.marker s.redis,
                named,
                markers.exists-set_nx marker_ttl_seconds now t r.marker m s.redis from,
                markers.exists-delete t r.marker m set_nx.1,
              )
          | inr differs ↦ ground (
            arith,
            markers.exists-set_nx marker_ttl_seconds now t r.marker m s.redis from,
            markers.exists-delete t r.marker m set_nx.1,
          )
        ]

    times_sent-remind :
        (r : Reminder) (there : Bool) (s : Sweep State)
        → exists now m s.redis ≡ there
        → times_sent m s ≡ one_if there
        → times_sent m (remind markers sends now r s)
          ≡ one_if (there || (marker_eq r.marker m && sends r))
    unfolding remind count
    times_sent-remind r there s first h = elim (Bool-cases (marker_eq r.marker m)) [
      | inl same ↦
          let named = ap (λ k. exists now k s.redis) (marker_eq-eq r.marker m same) in
          ground (arith, markers.set_nx-exists marker_ttl_seconds now r.marker s.redis, named)
      | inr differs ↦ ground arith
    ]

    -- A whole list of reminders.
    remind_all-sendable :
        (reminders : List Reminder) (there : Bool) (s : Sweep State)
        → Is there now end m s.redis
        → times_sent m s ≡ one_if there
        → let left = remind_all markers sends now reminders s in
          Is (there || is_sendable sends m reminders) now end m left.redis
          × (times_sent m left ≡ one_if (there || is_sendable sends m reminders))
    unfolding remind_all is_sendable
    remind_all-sendable [] there s kept h =
        ((λ t from before. ground (arith, kept t from before)), ground arith)
    remind_all-sendable (r ∷ reminders) there s kept h =
        let first = kept now (omega arith) soon in
        let rest =
          remind_all-sendable reminders (there || (marker_eq r.marker m && sends r))
            (remind markers sends now r s)
            (λ t from before. exists-remind r there s t from before first (kept t from before))
            (times_sent-remind r there s first h) in
        ((λ t from before. ground (arith, rest.0 t from before)), ground (arith, rest.1))

  sweeps-sendable :
      (m : Marker) (start now : ℕ) (rounds : List Round) (there : Bool) (s : Sweep State)
      → start ≤ now
      → IsWithin now (expires_at marker_ttl_seconds start) rounds
      → Is there now (expires_at marker_ttl_seconds start) m s.redis
      → times_sent m s ≡ one_if there
      → times_sent m (sweeps rounds s) ≡ one_if (there || was_sendable m rounds)
  unfolding sweeps was_sendable pending_receipt_reminder_job
  sweeps-sendable m start now [] there s from within kept h = ground (arith, h)
  sweeps-sendable m start now (x ∷ rounds) there s from within kept h =
      let reminders = due x.now (repost_unnotified_receipts x.post x.now x.db) in
      let later = within.0 in
      let (kept', h') =
        remind_all-sendable x.sends m x.now (expires_at marker_ttl_seconds start) within.1
          (omega (arith, from, later)) reminders there s
          (λ t after before. kept t (omega (arith, after, later)) before) h in
      ground (
        arith,
        sweeps-sendable m start x.now rounds (there || is_sendable x.sends m reminders)
            (remind_all markers x.sends x.now reminders s) (omega (arith, from, later)) within.2
            kept' h',
      )

  -- The sweeps of less than 30 days, one after the other, where no reminder was sent before them and
  -- the marker of a receipt at a threshold is not set: whatever Telegram answers and however the
  -- receipts change between them, that reminder is sent once where in some sweep it was due and its
  -- send returned, and otherwise not at all.
  pub sweeps-once :
      (m : Marker) (start : ℕ) (rounds : List Round) (redis : State)
      → IsWithin start (expires_at marker_ttl_seconds start) rounds
      → ((t : ℕ) → start ≤ t → exists t m redis ≡ false)
      → times_sent m (sweeps rounds (record { redis = redis; sent = [] }))
        ≡ (if was_sendable m rounds then 1 else 0)
  unfolding count
  sweeps-once m start rounds redis within unset =
      sweeps-sendable m start start rounds false (record { redis = redis; sent = [] }) (omega arith)
        within (λ t from before. unset t from) refl
