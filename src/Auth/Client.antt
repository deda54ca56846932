-- ===== src/Auth/Client.antt =====
-- app/auth.py `get_real_ip`, and `require_access` of app/deps.py. The modules ipaddress and jwt and `str.strip`
-- are arguments: `ip_address` gives an address in one spelling, or none for a ValueError.
use vibe_printer.Prelude.{
  Bool, true, false, not, ◌&&◌, String, Option, none, some, List, [], ◌∷◌, str_eq, ◌==◌,
  if◌then◌else◌,
}
use vibe_printer.Prelude.Texts.{Text, text_eq}
use vibe_printer.Errors.{Result, ok, err, api, api_error, forbidden}
use Prim.Native.Char.{code}

pub record Addresses : Type 0 where
  pub ip_address : String → Option Text
  pub in_network : (ip : Text) → (network : String) → Option Bool
  pub strip : String → String

-- "/" in entry
unfoldable pub has_slash : String → Bool
has_slash String.[] = false
has_slash (String.◌∷◌ c s) = let rest = has_slash s in if code c == b'/' then true else rest

-- text.split(",")[0]
unfoldable pub before_comma : String → String
before_comma String.[] = String.[]
before_comma (String.◌∷◌ c s) =
    let rest = before_comma s in if code c == b',' then String.[] else String.◌∷◌ c rest

module _ (m : Addresses) where
  -- Whether an entry of `trusted_proxies` covers the address; none for a ValueError.
  unfoldable pub covers : (ip : Text) → (entry : String) → Option Bool
  unfolding has_slash text_eq
  covers ip entry =
      if has_slash entry
      then m.in_network ip entry
      else elim (m.ip_address entry) [ none ↦ none | some other ↦ some (text_eq ip other) ]

  unfoldable pub any_covers : (ip : Text) → List String → Bool
  unfolding covers
  any_covers ip [] = false
  any_covers ip (entry ∷ entries) =
      let rest = any_covers ip entries in elim (covers ip entry) [ some true ↦ true | _ ↦ rest ]

  -- `_peer_trusted`
  unfoldable pub peer_trusted : (peer : String) → (trusted : List String) → Bool
  unfolding any_covers
  peer_trusted peer trusted = elim (m.ip_address peer) [
    | none ↦ false
    | some ip ↦ any_covers ip trusted
  ]

  -- A header that is there and not empty.
  unfoldable pub given : Option String → Option String
  given none = none
  given (some s) = if str_eq s "" then none else some s

  abbrev pub peer_or_unknown : Option String → String
  peer_or_unknown none = "unknown"
  peer_or_unknown (some p) = p

  unfoldable pub get_real_ip :
      (trusted : List String) (peer cf_connecting_ip x_forwarded_for : Option String) → String
  unfolding peer_trusted given before_comma
  get_real_ip trusted peer cf xff =
      let p = peer_or_unknown peer in
      if peer_trusted p trusted
      then elim (given cf) [
        | some ip ↦ m.strip ip
        | none ↦ elim (given xff) [ some ips ↦ m.strip (before_comma ips) | none ↦ p ]
      ]
      else p

  -- `require_access`: the fields of `resolve_remote` that it reads, the token of the request, and the
  -- check of `verify_access_token`.
  unfoldable pub require_access :
      (access_enabled access_lan_bypass : Bool) (trusted : List String) (peer token : Option String)
      (verify : String → Result String)
      → Result (Option String)
  unfolding peer_trusted given
  require_access access_enabled access_lan_bypass trusted peer token verify =
      let p : String = elim peer [ none ↦ "" | some h ↦ h ] in
      if not access_enabled
      then ok none
      else if access_lan_bypass && not (peer_trusted p trusted)
      then ok none
      else elim (given token) [
        | none ↦ err (api (api_error forbidden (some 403)))
        | some t ↦ elim (verify t) [ err e ↦ err e | ok identity ↦ ok (some identity) ]
      ]
