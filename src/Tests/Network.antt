-- ===== src/Tests/Network.antt =====
-- Limits, addresses and redirects at concrete inputs.
use mathlib.Core.List.{Mem}
use authpad.Prelude.{
  ℕ, ◌≡◌, ◌≤◌, refl, Bool, true, false, Option, none, some, List, [], ◌∷◌, ◌++◌, Text, codes, any,
  arith, if◌then◌else◌, ◌==◌,
}
use authpad.Prelude.Strings.{text_eq, trim_space, is_space, byte_len, to_lower}
use authpad.Limiter.{new_limiter}
use authpad.Prelude.Dict.{lookup}
use authpad.Limiter.Counting.{live}
use authpad.Limiter.Window.{Call, allowed, asked, InWindow, allowed-InWindow}
use authpad.ClientIp.{NetLib, client_ip, host_ip, hops, ip_trusted, split_comma}
use authpad.ClientIp.Walk.{client_ip-nearest_untrusted, client_ip-garbage}
use authpad.Redirect.{
  Url, is_empty, is_root, is_unsafe, origin_of, effective_port, entry_matches,
  magic_link_redirect_allowed,
}
use authpad.Redirect.Allowed.{magic_link_redirect_allowed_sound}
use authpad.Tests.Fixtures.{ascii}
use Prim.Native.Nat.{min}

abbrev key : Text
key = codes "ip"

abbrev call_at : ℕ → Call
call_at now = record { key = key; limit = 2; window = 100; now = now }

abbrev calls : List Call
calls = call_at 10 ∷ call_at 20 ∷ call_at 30 ∷ []

calls-InWindow : InWindow key 2 10 60 calls
calls-InWindow = (
  omega arith,
  omega arith,
  (λ e. (refl, omega arith)),
  (
    omega arith,
    omega arith,
    (λ e. (refl, omega arith)),
    (omega arith, omega arith, (λ e. (refl, omega arith)), tt),
  ),
)

none-live : live new_limiter key 10 ≡ none
unfolding live lookup
none-live = refl

allowed-InWindow_example :
    allowed key new_limiter calls ≡ (if 2 == 0 then asked key calls else min 2 (asked key calls))
allowed-InWindow_example =
    allowed-InWindow key 2 10 60 new_limiter calls tt calls-InWindow none-live

-- The one network is the addresses from 10 to 19; an address is its one character's code.
abbrev net : NetLib ℕ Bool
net = record {
  split_host_port = λ s. none;
  parse_ip = λ s. elim s [ [] ↦ none | ◌∷◌ c _ ↦ (if c == b'x' then none else some c) ];
  show = λ n. n ∷ [];
  contains = λ all n. n == b'p';
}

found : host_ip net (true ∷ []) (codes "p") ≡ some b'p'
unfolding host_ip trim_space is_space
found = refl

known : ip_trusted net (true ∷ []) b'p' ≡ true
unfolding ip_trusted
known = refl

spoofed : hops (codes "s,c, p" ∷ []) ≡ (codes "s" ∷ []) ++ codes "c" ∷ codes " p" ∷ []
unfolding hops split_comma
spoofed = refl

proxy : host_ip net (true ∷ []) (codes " p") ≡ some b'p'
unfolding host_ip trim_space is_space
proxy = refl

client : host_ip net (true ∷ []) (codes "c") ≡ some b'c'
unfolding host_ip trim_space is_space
client = refl

outside : ip_trusted net (true ∷ []) b'c' ≡ false
unfolding ip_trusted
outside = refl

client_ip-nearest_untrusted_example :
    client_ip net (true ∷ []) (codes "p") (codes "s,c, p" ∷ []) ≡ codes "c"
client_ip-nearest_untrusted_example =
    client_ip-nearest_untrusted net (true ∷ []) (codes "p") b'p' b'c' (codes "s,c, p" ∷ [])
      (codes "s" ∷ []) (codes "c") (codes " p" ∷ []) found known spoofed ((b'p', proxy, known), tt)
      client outside

garbled : hops (codes "s,x, p" ∷ []) ≡ (codes "s" ∷ []) ++ codes "x" ∷ codes " p" ∷ []
unfolding hops split_comma
garbled = refl

garbage : host_ip net (true ∷ []) (codes "x") ≡ none
unfolding host_ip trim_space is_space
garbage = refl

client_ip-garbage_example : client_ip net (true ∷ []) (codes "p") (codes "s,x, p" ∷ []) ≡ codes "p"
client_ip-garbage_example =
    client_ip-garbage net (true ∷ []) (codes "p") b'p' (codes "s,x, p" ∷ []) (codes "s" ∷ [])
      (codes "x") (codes " p" ∷ []) found known garbled ((b'p', proxy, known), tt) garbage

-- `url.Parse`, of the one site.
abbrev site : Text → Option Url
site raw = some (record {
  scheme = codes "https";
  opaque = [];
  has_user = false;
  host = codes "app";
  hostname = codes "app";
  port = [];
  path = [];
  raw_query = [];
  fragment = [];
  text = raw;
})

permitted :
    magic_link_redirect_allowed ascii site (codes "https://app" ∷ []) (codes "https://app/in")
    ≡ true
unfolding magic_link_redirect_allowed origin_of effective_port entry_matches trim_space is_space
    byte_len text_eq to_lower
permitted = refl

magic_link_redirect_allowed-sound_example :
    (byte_len (codes "https://app/in") ≤ 2048)
    × (any is_unsafe (codes "https://app/in") ≡ false)
    × ((l : Url) × (origin : Text) × (entry : Text) × (a : Url) × (site (codes "https://app/in")
          ≡ some l)
        × (l.has_user ≡ false)
        × (is_empty l.opaque ≡ true)
        × (is_empty l.hostname ≡ false)
        × (origin_of ascii site l ≡ some origin)
        × Mem entry (codes "https://app" ∷ [])
        × (site (trim_space entry) ≡ some a)
        × (origin_of ascii site a ≡ some origin)
        × ((a.has_user ≡ false)
            × (is_root a.path ≡ true)
            × (is_empty a.raw_query ≡ true)
            × (is_empty a.fragment ≡ true)))
magic_link_redirect_allowed-sound_example =
    magic_link_redirect_allowed_sound ascii site (codes "https://app" ∷ []) (codes "https://app/in")
      permitted
