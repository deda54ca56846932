-- ===== src/Auth/Served.antt =====
-- The limiter over a run of requests, each with the headers that its sender likes.
use mathlib.Core.List.{append-nil}
use text.Mathlib.TextPositions.{eq_refl}
use vibe_printer.Prelude.{
  ℕ, ◌≤◌, ◌≡◌, refl, sym, ap, ◌∙◌, Bool, false, ◌&&◌, String, Option, some, List, [], ◌∷◌, ◌++◌,
  str_eq, eq_iff, length, length-keep-le, keep, if◌then◌else◌, arith, Bool-cases, inl, inr,
}
use vibe_printer.Prelude.Counting.{count_if}
use vibe_printer.Errors.{Result, ok, err}
use vibe_printer.Auth.{Hits, window, check}
use vibe_printer.Auth.Client.{Addresses, peer_trusted, get_real_ip}
use vibe_printer.Auth.Limits.{is_recent, check_cases}
use vibe_printer.Auth.Windows.{Tracks, Tracks-later, Tracks-recent, Tracks-append}

pub record Arrival : Type 0 where
  pub now : ℕ
  pub peer : String
  pub cf_connecting_ip : Option String
  pub x_forwarded_for : Option String

-- The arrivals come in the order of time, from `since` on, and none after `until`.
abbrev pub Ordered : (since : ℕ) → List Arrival → (until : ℕ) → Type 0
Ordered since [] until = since ≤ until
Ordered since (a ∷ arrivals) until = (since ≤ a.now) × Ordered a.now arrivals until

added : Result (Unit {0}) → Arrival → List Arrival → List Arrival
added (err e) a admitted = admitted
added (ok u) a admitted = admitted ++ a ∷ []

module _ (m : Addresses) (trusted : List String) (per_minute : ℕ) where
  abbrev pub key_of : Arrival → String
  key_of a = get_real_ip m trusted (some a.peer) a.cf_connecting_ip a.x_forwarded_for

  -- The arrivals in turn; those that the limiter lets pass are put behind the ones before.
  pub serve : List Arrival → Hits → (admitted : List Arrival) → Hits × List Arrival
  serve [] hits admitted = (hits, admitted)
  serve (a ∷ arrivals) hits admitted =
      let (r, hits') = check per_minute a.now (key_of a) hits in
      serve arrivals hits' (added r a admitted)

  -- The times of the requests that were let pass under a key.
  times : (key : String) → List Arrival → List ℕ
  times k [] = []
  times k (a ∷ admitted) =
      let rest = times k admitted in if str_eq (key_of a) k then a.now ∷ rest else rest

  times-append :
      (k : String) (a : Arrival) (admitted : List Arrival)
      → times k (admitted ++ a ∷ [])
        ≡ times k admitted ++ (if str_eq (key_of a) k then a.now ∷ [] else [])
  unfolding times
  times-append k a [] = refl
  times-append k a (b ∷ admitted) = ground (arith, times-append k a admitted)

  -- Every window against the requests let pass under its key.
  abbrev AllTrack : (now : ℕ) → Hits → List Arrival → Type 0
  AllTrack now hits admitted =
      (k : String) → Tracks per_minute now (window k hits) (times k admitted)

  module _ (now : ℕ) (a : Arrival) (hits : Hits) (admitted : List Arrival)
      (h : AllTrack now hits admitted) (le : now ≤ a.now) where
    later_at : (k : String) → Tracks per_minute a.now (window k hits) (times k admitted)
    later_at k = Tracks-later per_minute now (window k hits) (times k admitted) (h k) a.now le

    own-Tracks :
        Tracks per_minute a.now
          (window (key_of a) (check per_minute a.now (key_of a) hits).1)
          (times (key_of a) (added (check per_minute a.now (key_of a) hits).0 a admitted))
    unfolding added
    own-Tracks =
        let at_key =
          Tracks-recent per_minute a.now (window (key_of a) hits) (times (key_of a) admitted)
            (later_at (key_of a)) in
        elim (check_cases per_minute a.now (key_of a) (key_of a) hits (h (key_of a)).sorted) [
          | inl (full, refused, w) ↦ rw (refused, w, eq_refl (key_of a)) at_key
          | inr (room, passed, w) ↦
              rw (passed, w, times-append (key_of a) a admitted, eq_refl (key_of a))
                (Tracks-append per_minute a.now _ (times (key_of a) admitted) at_key
                  (rw (w, eq_refl (key_of a)) at room))
        ]

    other-Tracks :
        (k : String)
        → str_eq (key_of a) k ≡ false
        → Tracks per_minute a.now
            (window k (check per_minute a.now (key_of a) hits).1)
            (times k (added (check per_minute a.now (key_of a) hits).0 a admitted))
    unfolding added
    other-Tracks k other =
        elim (check_cases per_minute a.now (key_of a) k hits (h (key_of a)).sorted) [
          | inl (full, refused, w) ↦ rw (refused, w, other) (later_at k)
          | inr (room, passed, w) ↦
              rw (passed, w, times-append k a admitted, other, append-nil) (later_at k)
        ]

    AllTrack-step :
        let (r, hits') = check per_minute a.now (key_of a) hits in
        AllTrack a.now hits' (added r a admitted)
    AllTrack-step k = elim (Bool-cases (str_eq (key_of a) k)) [
      | inl mine ↦
          let same : k ≡ (key_of a) = sym ((eq_iff (key_of a) k).0 mine) in rw same own-Tracks
      | inr other ↦ other-Tracks k other
    ]

  serve-AllTrack :
      (since until : ℕ) (arrivals : List Arrival) (hits : Hits) (admitted : List Arrival)
      → Ordered since arrivals until
      → AllTrack since hits admitted
      → let (hits', admitted') = serve arrivals hits admitted in AllTrack until hits' admitted'
  unfolding serve
  serve-AllTrack since until [] hits admitted order h =
      λ k. Tracks-later per_minute since (window k hits) (times k admitted) (h k) until order
  serve-AllTrack since until (a ∷ arrivals) hits admitted order h =
      serve-AllTrack a.now until arrivals (check per_minute a.now (key_of a) hits).1 _ order.1
        (AllTrack-step since a hits admitted h order.0)

  -- The requests of a peer that is no trusted proxy stand under its own name.
  abbrev pub from_peer : (peer : String) (now : ℕ) → Arrival → Bool
  from_peer peer now a = str_eq a.peer peer && is_recent now a.now

  untrusted-key : (a : Arrival) → peer_trusted m a.peer trusted ≡ false → key_of a ≡ a.peer
  unfolding get_real_ip
  untrusted-key a h = rw h refl

  count-le-times :
      (peer : String) (now : ℕ) (admitted : List Arrival)
      → peer_trusted m peer trusted ≡ false
      → count_if (from_peer peer now) admitted ≤ length (keep (is_recent now) (times peer admitted))
  unfolding times
  count-le-times peer now [] h = omega arith
  count-le-times peer now (a ∷ admitted) h = elim (Bool-cases (str_eq a.peer peer)) [
    | inl mine ↦
        let same : a.peer ≡ peer = (eq_iff a.peer peer).0 mine in
        let key : key_of a ≡ peer = untrusted-key a (rw same h) ∙ same in
        rw (mine, key, eq_refl peer) (ground (arith, count-le-times peer now admitted h))
    | inr other ↦ rw other (ground (arith, count-le-times peer now admitted h))
  ]

  start-AllTrack : AllTrack 0 [] []
  unfolding window times
  start-AllTrack k = record { sorted = tt; below = tt; same = refl; few = omega arith }

  -- Whatever headers a peer sends that is no trusted proxy, and whatever others send: of its requests the
  -- limiter lets pass at most `per_minute` in the sixty seconds before any moment at which the run so far,
  -- from an empty limiter and in the order of time, has ended.
  pub admitted_bounded :
      (peer : String) (arrivals : List Arrival) (now : ℕ)
      → Ordered 0 arrivals now
      → peer_trusted m peer trusted ≡ false
      → count_if (from_peer peer now) (serve arrivals [] []).1 ≤ per_minute
  admitted_bounded peer arrivals now order untrusted =
      let admitted = (serve arrivals [] []).1 in
      let hits = (serve arrivals [] []).0 in
      let tracks = serve-AllTrack 0 now arrivals [] [] order start-AllTrack peer in
      omega (
        arith,
        count-le-times peer now admitted untrusted,
        ap length tracks.same,
        length-keep-le (is_recent now) (window peer hits),
        tracks.few,
      )
