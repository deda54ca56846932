-- ===== src/Worker/Offline.antt =====
-- app/queue.py, class Worker: `_check_offline`, which alerts when a printer has been out of reach for long.
-- The readings of the monotonic clock are numbers of seconds. `post_signed` is best-effort and raises nothing.
use vibe_printer.Prelude.{
  ℕ, ◌+◌, ◌*◌, ◌≤◌, ◌≡◌, Bool, true, false, not, ◌&&◌, Option, none, some, List, [], ◌∷◌, ◌++◌,
  ◌==◌, leb, if◌then◌else◌, arith, Bool-cases, inl, inr, keep,
}
use vibe_printer.Prelude.Counting.{count_if, count_if-append}

-- An entry of `_offline_since`, a row of the diagnostics, and the printers for which an alert was posted.
pub record Since : Type 0 where
  pub printer : ℕ
  pub at : ℕ

pub record Seen : Type 0 where
  pub id : ℕ
  pub reachable : Bool

pub record Outages : Type 0 where
  pub offline_since : List Since
  pub alerted : List ℕ
  pub posted : List ℕ

unfoldable pub since_of : ℕ → List Since → Option ℕ
since_of i [] = none
since_of i (e ∷ es) = let rest = since_of i es in if e.printer == i then some e.at else rest

unfoldable pub is_alerted : ℕ → List ℕ → Bool
is_alerted i [] = false
is_alerted i (k ∷ ks) = if k == i then true else is_alerted i ks

-- `_offline_alerted.discard(pid)`
unfoldable pub discard : ℕ → List ℕ → List ℕ
discard i ks = keep (λ k. not (k == i)) ks

-- `_offline_since.setdefault(pid, now)`
unfoldable pub set_default : (i now : ℕ) → List Since → ℕ × List Since
unfolding since_of
set_default i now es = elim (since_of i es) [
  | some t ↦ (t, es)
  | none ↦ (now, record { printer = i; at = now } ∷ es)
]

-- The body of the loop.
unfoldable pub look : (now threshold : ℕ) → Seen → Outages → Outages
unfolding set_default is_alerted discard
look now threshold p s =
    if p.reachable
    then record s {
      offline_since = keep (λ e. not (e.printer == p.id)) s.offline_since;
      alerted = discard p.id s.alerted;
    }
    else (let (since, es) = set_default p.id now s.offline_since in
        if leb (since + threshold) now && not (is_alerted p.id s.alerted)
        then record {
          offline_since = es;
          alerted = p.id ∷ s.alerted;
          posted = s.posted ++ (p.id ∷ []);
        }
        else record s { offline_since = es })

unfoldable pub check_offline : (minutes now : ℕ) → List Seen → Outages → Outages
unfolding look
check_offline minutes now [] s = s
check_offline minutes now (p ∷ printers) s =
    check_offline minutes now printers (look now (minutes * 60) p s)

-- One heartbeat after another, each with its reading of the clock.
pub record Beat : Type 0 where
  pub now : ℕ
  pub printers : List Seen

unfoldable pub watch : (minutes : ℕ) → List Beat → Outages → Outages
unfolding check_offline
watch minutes [] s = s
watch minutes (b ∷ beats) s = watch minutes beats (check_offline minutes b.now b.printers s)

-- How often a printer was seen within reach.
abbrev pub is_up : ℕ → Seen → Bool
is_up i p = p.reachable && (p.id == i)

abbrev pub recoveries : ℕ → List Beat → ℕ
recoveries i [] = 0
recoveries i (b ∷ beats) = count_if (is_up i) b.printers + recoveries i beats

abbrev pub posts : ℕ → Outages → ℕ
posts i s = count_if (λ k. k == i) s.posted

-- An alert for each time that the printer came back, and one for the outage that it is in.
abbrev Once : (i recovered : ℕ) → Outages → Type 0
Once i recovered s = posts i s ≤ recovered + (if is_alerted i s.alerted then 1 else 0)

is_alerted-discard :
    (i k : ℕ) (ks : List ℕ)
    → is_alerted i (discard k ks) ≡ (if k == i then false else is_alerted i ks)
unfolding is_alerted discard
is_alerted-discard i k [] = ground arith
is_alerted-discard i k (j ∷ ks) = ground (arith, is_alerted-discard i k ks)

look-Once :
    (i now threshold r : ℕ) (p : Seen) (s : Outages)
    → Once i r s
    → Once i (r + (if is_up i p then 1 else 0)) (look now threshold p s)
unfolding look
look-Once i now threshold r p s h = elim (Bool-cases p.reachable) [
  | inl up ↦ rw (look, up, is_alerted-discard i p.id s.alerted) (ground (arith, h))
  | inr down ↦
      elim (Bool-cases (
        leb ((set_default p.id now s.offline_since).0 + threshold) now
        && not (is_alerted p.id s.alerted))) [
          | inl due ↦
              rw (look, down, due, count_if-append (λ k. k == i) s.posted (p.id ∷ []))
                (unfold is_alerted in ground (arith, h))
          | inr quiet ↦ rw (look, down, quiet) (omega (arith, h))
        ]
]

check_offline-Once :
    (i minutes now r : ℕ) (printers : List Seen) (s : Outages)
    → Once i r s
    → Once i (r + count_if (is_up i) printers) (check_offline minutes now printers s)
unfolding check_offline
check_offline-Once i minutes now r [] s h = omega (arith, h)
check_offline-Once i minutes now r (p ∷ printers) s h =
    let rest =
      check_offline-Once i minutes now (r + (if is_up i p then 1 else 0)) printers
        (look now (minutes * 60) p s) (look-Once i now (minutes * 60) r p s h) in
    ground (arith, rest)

watch-Once :
    (i minutes r : ℕ) (beats : List Beat) (s : Outages)
    → Once i r s
    → Once i (r + recoveries i beats) (watch minutes beats s)
unfolding watch
watch-Once i minutes r [] s h = omega (arith, h)
watch-Once i minutes r (b ∷ beats) s h =
    let rest =
      watch-Once i minutes (r + count_if (is_up i) b.printers) beats
        (check_offline minutes b.now b.printers s)
        (check_offline-Once i minutes b.now r b.printers s h) in
    omega (arith, rest)

abbrev pub no_outages : Outages
no_outages = record { offline_since = []; alerted = []; posted = [] }

-- An outage is alerted once: over any heartbeats from the start of the worker, a printer is alerted at
-- most once more than it was seen within reach, however long it stays away and however often it is
-- looked at.
pub alerts_once :
    (minutes : ℕ) (beats : List Beat) (i : ℕ)
    → posts i (watch minutes beats no_outages) ≤ recoveries i beats + 1
alerts_once minutes beats i =
    let bound = watch-Once i minutes 0 beats no_outages (unfold is_alerted in omega arith) in
    ground (arith, bound)
