-- ===== src/ClientIp/Walk.antt =====
-- Who is found behind trusted proxies.
use mathlib.Core.List.{reverse, reverse-append, append_assoc, reverse-cons}
use authpad.Prelude.{
  ◌≡◌, refl, ap, ◌∙◌, true, false, none, some, List, [], ◌∷◌, ◌++◌, Text, All, All-reverse, arith,
}
use authpad.ClientIp.{NetLib, ip_trusted, host_ip, walk, client_ip, hops}

pub hops-append : (xs ys : List Text) → hops (xs ++ ys) ≡ hops xs ++ hops ys
unfolding hops
hops-append [] ys = refl
hops-append (x ∷ xs) ys = simp (hops-append xs ys, append_assoc)

module _ {Ip Net : Type 0} (lib : NetLib Ip Net) (trusted : List Net) where
  -- A hop that names an address of a trusted proxy.
  abbrev pub IsProxy : Text → Type 0
  IsProxy h = (ip : Ip) × (host_ip lib trusted h ≡ some ip) × (ip_trusted lib trusted ip ≡ true)

  walk-proxies :
      (peer : Ip) (proxies : List Text) (h : Text) (rest : List Text)
      → All IsProxy proxies
      → walk lib trusted peer (proxies ++ h ∷ rest) ≡ walk lib trusted peer (h ∷ rest)
  unfolding walk
  walk-proxies peer [] h rest all = refl
  walk-proxies peer (p ∷ []) h rest ((ip, found, known), all) = ground arith
  walk-proxies peer (p ∷ q ∷ ps) h rest ((ip, found, known), all) =
      ground (arith, walk-proxies peer (q ∷ ps) h rest all)

  reverse-hops :
      (before : List Text) (h : Text) (proxies : List Text)
      → reverse (before ++ h ∷ proxies) ≡ reverse proxies ++ h ∷ reverse before
  reverse-hops before h proxies = simp (reverse-append, reverse-cons, append_assoc)

  -- The walk stops at the rightmost hop that is not a proxy's address, whatever stands left of it.
  walk-stops :
      (peer : Ip) (before : List Text) (h : Text) (proxies : List Text) (at : Ip)
      → All IsProxy proxies
      → walk lib trusted peer (h ∷ reverse before) ≡ at
      → walk lib trusted peer (reverse (before ++ h ∷ proxies)) ≡ at
  walk-stops peer before h proxies at all e =
      rw (reverse-hops before h proxies) (
        walk-proxies peer (reverse proxies) h (reverse before) (All-reverse IsProxy proxies all)
        ∙ e)

  -- Behind a trusted peer the client is the rightmost hop that is an address of no trusted proxy,
  -- if all hops right of it are proxies: what the caller writes left of it has no effect.
  pub client_ip-nearest_untrusted :
      (remote_addr : Text) (peer ip : Ip) (forwarded before : List Text) (h : Text)
      (proxies : List Text)
      → host_ip lib trusted remote_addr ≡ some peer
      → ip_trusted lib trusted peer ≡ true
      → hops forwarded ≡ before ++ h ∷ proxies
      → All IsProxy proxies
      → host_ip lib trusted h ≡ some ip
      → ip_trusted lib trusted ip ≡ false
      → client_ip lib trusted remote_addr forwarded ≡ lib.show ip
  unfolding client_ip
  client_ip-nearest_untrusted remote_addr peer ip forwarded before h proxies found known split all e
        u =
      rw (found, client_ip)
        (rw (known, split) (ap lib.show (walk-stops peer before h proxies ip all (at_hop e u))))
    where
      at_hop :
          host_ip lib trusted h ≡ some ip
          → ip_trusted lib trusted ip ≡ false
          → walk lib trusted peer (h ∷ reverse before) ≡ ip
      at_hop e u = unfold walk in ground arith

  -- Behind a trusted peer, a hop that is no address, with only proxies right of it, makes the
  -- peer the client, and none of the proxies in between.
  pub client_ip-garbage :
      (remote_addr : Text) (peer : Ip) (forwarded before : List Text) (h : Text)
      (proxies : List Text)
      → host_ip lib trusted remote_addr ≡ some peer
      → ip_trusted lib trusted peer ≡ true
      → hops forwarded ≡ before ++ h ∷ proxies
      → All IsProxy proxies
      → host_ip lib trusted h ≡ none
      → client_ip lib trusted remote_addr forwarded ≡ lib.show peer
  unfolding client_ip
  client_ip-garbage remote_addr peer forwarded before h proxies found known split all e =
      rw (found, client_ip)
        (rw (known, split) (ap lib.show (walk-stops peer before h proxies peer all at_hop)))
    where
      at_hop : walk lib trusted peer (h ∷ reverse before) ≡ peer
      at_hop = unfold walk in ground arith
