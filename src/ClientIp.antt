-- ===== src/ClientIp.antt =====
-- internal/security/client_ip.go: the caller's address, behind trusted proxies or not. Addresses,
-- networks and the functions of the package net are parameters.
use mathlib.Core.List.{reverse}
use authpad.Prelude.{
  Bool, true, false, not, Option, none, some, List, [], ◌∷◌, ◌++◌, any, Text, ◌==◌, ◌||◌,
  if◌then◌else◌,
}
use authpad.Prelude.Strings.{trim_space}
pub mod Walk

-- What the program calls of the package net.
pub record NetLib (Ip Net : Type 0) : Type 0 where
  pub split_host_port : Text → Option Text
  pub parse_ip : Text → Option Ip
  pub show : Ip → Text
  pub contains : Net → Ip → Bool

-- `strings.Split(s, ",")`
unfoldable pub split_comma : Text → Text → List Text
split_comma cur [] = reverse cur ∷ []
split_comma cur (c ∷ s) =
    if c == b',' then reverse cur ∷ split_comma [] s else split_comma (c ∷ cur) s

-- `strings.Trim(s, "[]")`
abbrev drop_brackets : Text → Text
drop_brackets [] = []
drop_brackets (c ∷ s) = if c == b'[' || c == b']' then drop_brackets s else c ∷ s

abbrev trim_brackets : Text → Text
trim_brackets s = reverse (drop_brackets (reverse (drop_brackets s)))

-- The addresses that the header `X-Forwarded-For` lists, over all its values, left to right.
unfoldable pub hops : List Text → List Text
hops [] = []
hops (v ∷ vs) = split_comma [] v ++ hops vs

abbrev host_part : Text → Option Text → Text
host_part raw none = raw
host_part raw (some host) = host

abbrev is_empty : List Text → Bool
is_empty [] = true
is_empty (_ ∷ _) = false

module _ {Ip Net : Type 0} (lib : NetLib Ip Net) (trusted : List Net) where
  -- `ipTrusted`
  unfoldable pub ip_trusted : Ip → Bool
  ip_trusted ip = any (λ n. lib.contains n ip) trusted

  -- `hostIP`
  unfoldable pub host_ip : Text → Option Ip
  unfolding trim_space
  host_ip raw =
      let trimmed = trim_space raw in
      lib.parse_ip (trim_brackets (host_part trimmed (lib.split_host_port trimmed)))

  -- The loop of `ClientIP`, over the hops from right to left.
  unfoldable pub walk : Ip → List Text → Ip
  walk peer [] = peer
  walk peer (h ∷ rest) = elim (host_ip h) [
    | none ↦ peer
    | some ip ↦
        let further = walk peer rest in
        if not (ip_trusted ip) then ip else if is_empty rest then ip else further
  ]

  -- `ClientIP`, of the connection's remote address and the values of the header. The empty list of
  -- networks trusts nobody, so the test for it is the one of `ip_trusted`.
  unfoldable pub client_ip : Text → List Text → Text
  client_ip remote_addr forwarded = elim (host_ip remote_addr) [
    | none ↦ []
    | some peer ↦
        if not (ip_trusted peer)
        then lib.show peer
        else lib.show (walk peer (reverse (hops forwarded)))
  ]
