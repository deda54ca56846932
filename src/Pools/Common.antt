-- ===== src/Pools/Common.antt =====
-- The capabilities that a pool reports: no more than each of its members has.
use mathlib.Core.List.{Memᴰ}
use vibe_printer.Prelude.{
  ℕ, zero, suc, ◌≡◌, refl, Bool, true, false, not, ◌||◌, ◌&&◌, String, Option, none, some, List, [],
  ◌∷◌, arith, leb, keep, every, eq_iff, map,
}
use vibe_printer.Models.{Capabilities}
use vibe_printer.Pools.{has_format, least, common_barcodes, intersect}

abbrev pub implies : Bool → Bool → Bool
implies a b = not a || b

-- A reported width is at most the member's, if that is known and not 0; only then is one reported.
abbrev pub fits : Option ℕ → Option ℕ → Bool
fits none none = true
fits none (some zero) = true
fits none (some (suc k)) = false
fits (some n) none = true
fits (some n) (some zero) = true
fits (some n) (some (suc k)) = leb n (suc k)

pub record Within (a c : Capabilities) : Type 0 where
  pub cut : implies a.cut c.cut ≡ true
  pub qr : implies a.qr c.qr ≡ true
  pub raster : implies a.raster c.raster ≡ true
  pub pulse : implies a.pulse c.pulse ≡ true
  pub pdf : implies a.pdf c.pdf ≡ true
  pub barcode : (f : String) → implies (has_format f a.barcode) (has_format f c.barcode) ≡ true
  pub columns : fits a.columns c.columns ≡ true
  pub paper_width_dots : fits a.paper_width_dots c.paper_width_dots ≡ true

every-mem :
    (p : Capabilities → Bool) (c : Capabilities) (cs : List Capabilities)
    → Memᴰ c cs
    → implies (every p cs) (p c) ≡ true
every-mem p c [] m = elim m [ ]
every-mem p c (x ∷ cs) (Memᴰ.head e) = rw e (ground arith)
every-mem p c (x ∷ cs) (Memᴰ.tail m) = ground (arith, every-mem p c cs m)

has_format-keep :
    (p : String → Bool) (f : String) (fs : List String)
    → has_format f (keep p fs) ≡ (has_format f fs && p f)
unfolding has_format
has_format-keep p f [] = refl
has_format-keep p f (g ∷ fs) = ground (arith, eq_iff f g, has_format-keep p f fs)

common_barcodes-acc :
    (f : String) (acc : List String) (cs : List Capabilities)
    → implies (has_format f (common_barcodes acc cs)) (has_format f acc) ≡ true
unfolding common_barcodes
common_barcodes-acc f acc [] = ground arith
common_barcodes-acc f acc (c ∷ cs) = ground (
  arith,
  has_format-keep (λ g. has_format g c.barcode) f acc,
  common_barcodes-acc f (keep (λ g. has_format g c.barcode) acc) cs,
)

common_barcodes-mem :
    (f : String) (acc : List String) (c : Capabilities) (cs : List Capabilities)
    → Memᴰ c cs
    → implies (has_format f (common_barcodes acc cs)) (has_format f c.barcode) ≡ true
unfolding common_barcodes
common_barcodes-mem f acc c [] m = elim m [ ]
common_barcodes-mem f acc c (x ∷ cs) (Memᴰ.head e) = rw e (
    ground (
      arith,
      has_format-keep (λ g. has_format g x.barcode) f acc,
      common_barcodes-acc f (keep (λ g. has_format g x.barcode) acc) cs,
    ))
common_barcodes-mem f acc c (x ∷ cs) (Memᴰ.tail m) =
    common_barcodes-mem f (keep (λ g. has_format g x.barcode) acc) c cs m

barcode-mem :
    (f : String) (x c : Capabilities) (cs : List Capabilities)
    → Memᴰ c (x ∷ cs)
    → implies (has_format f (common_barcodes x.barcode cs)) (has_format f c.barcode) ≡ true
barcode-mem f x c cs (Memᴰ.head e) = rw e (common_barcodes-acc f x.barcode cs)
barcode-mem f x c cs (Memᴰ.tail m) = common_barcodes-mem f x.barcode c cs m

fits-least :
    (w : Capabilities → Option ℕ) (c : Capabilities) (cs : List Capabilities)
    → Memᴰ c cs
    → fits (least (map w cs)) (w c) ≡ true
unfolding least
fits-least w c [] m = elim m [ ]
fits-least w c (x ∷ cs) (Memᴰ.head e) = rw e (ground arith)
fits-least w c (x ∷ cs) (Memᴰ.tail m) = ground (arith, fits-least w c cs m)

-- Whatever a pool reports, each of its members can do: every flag and every barcode symbology of the
-- intersection is that member's, and a width is at most the member's own where that is known.
pub intersect-Within :
    (c : Capabilities) (cs : List Capabilities) → Memᴰ c cs → Within (intersect cs) c
unfolding intersect
intersect-Within c [] m = elim m [ ]
intersect-Within c (x ∷ cs) m = record {
  cut = every-mem (λ y. y.cut) c (x ∷ cs) m;
  qr = every-mem (λ y. y.qr) c (x ∷ cs) m;
  raster = every-mem (λ y. y.raster) c (x ∷ cs) m;
  pulse = every-mem (λ y. y.pulse) c (x ∷ cs) m;
  pdf = every-mem (λ y. y.pdf) c (x ∷ cs) m;
  barcode = λ f. barcode-mem f x c cs m;
  columns = fits-least (λ y. y.columns) c (x ∷ cs) m;
  paper_width_dots = fits-least (λ y. y.paper_width_dots) c (x ∷ cs) m;
}
