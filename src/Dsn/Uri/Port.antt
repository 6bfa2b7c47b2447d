-- ===== src/Dsn/Uri/Port.antt =====
-- Lemmas on uri_has_explicit_port of src/dsn.rs.
use pg_maintainer.Prelude.{
  ◌≡◌, refl, false, [], ◌∷◌, ◌++◌, append_assoc, ◌⊎◌, inl, inr, Option, none, some, is_some, Text,
  arith,
}
use pg_maintainer.Dsn.Uri.{
  strip_prefix, starts_with, contains, hostpart, names_port, uri_has_explicit_port,
}
use pg_maintainer.Dsn.Uri.Authority.{
  IsClean, IsTail, IsScheme, uri_text, contains-append, rsplit_once-append, rsplit_once-none,
  uri_authority_lem,
}

-- `{host}` or `{host}:{port}`
abbrev pub with_port : Text → Option Text → Text
with_port host none = host
with_port host (some port) = host ++ b':' ∷ port

-- with `{userinfo}@` before it, or not
abbrev pub with_userinfo : Option Text → Text → Text
with_userinfo none host = host
with_userinfo (some userinfo) host = userinfo ++ b'@' ∷ host

-- A name or an IPv4 address, or an IPv6 address in brackets.
abbrev pub IsHost : Text → Type 0
IsHost host =
    ((contains b':' host ≡ false) × (contains b']' host ≡ false))
    ⊎ ((address : Text) × (host ≡ b'[' ∷ (address ++ b']' ∷ [])))

abbrev pub IsPort : Option Text → Type 0
IsPort none = Unit
IsPort (some port) = (contains b']' port ≡ false) × (contains b'@' port ≡ false)

names_port-plain :
    (host : Text) (port : Option Text)
    → contains b':' host ≡ false
    → contains b']' host ≡ false
    → IsPort port
    → names_port (with_port host port) ≡ is_some port
unfolding contains names_port
names_port-plain host none colon bracket h =
    rw (names_port, rsplit_once-none b']' host bracket) colon
names_port-plain host (some port) colon bracket h =
    let none_there : contains b']' (host ++ b':' ∷ port) ≡ false =
      ground (arith, contains-append b']' host (b':' ∷ port)) in
    rw (names_port, rsplit_once-none b']' (host ++ b':' ∷ port) none_there)
      (ground (arith, contains-append b':' host (b':' ∷ port)))

names_port-bracketed :
    (address : Text) (port : Option Text)
    → IsPort port
    → names_port (with_port (b'[' ∷ (address ++ b']' ∷ [])) port) ≡ is_some port
unfolding starts_with strip_prefix contains names_port
names_port-bracketed address none h =
    rw (names_port, rsplit_once-append b']' (b'[' ∷ address) [] refl) refl
names_port-bracketed address (some port) h =
    let none_there : contains b']' (b':' ∷ port) ≡ false = ground arith in
    rw
      (
        append_assoc (b'[' ∷ address) (b']' ∷ []) (b':' ∷ port),
        names_port,
        rsplit_once-append b']' (b'[' ∷ address) (b':' ∷ port) none_there,
      )
      refl

names_port_lem :
    (host : Text) (port : Option Text)
    → IsHost host
    → IsPort port
    → names_port (with_port host port) ≡ is_some port
names_port_lem host port (inl h) hp = names_port-plain host port h.0 h.1 hp
names_port_lem host port (inr (address, e)) hp = rw e (names_port-bracketed address port hp)

hostpart_lem :
    (userinfo : Option Text) (host : Text)
    → contains b'@' host ≡ false
    → hostpart (with_userinfo userinfo host) ≡ host
unfolding hostpart
hostpart_lem none host h = rw (hostpart, rsplit_once-none b'@' host h) refl
hostpart_lem (some userinfo) host h = rw (hostpart, rsplit_once-append b'@' userinfo host h) refl

contains-with_port :
    (host : Text) (port : Option Text)
    → contains b'@' host ≡ false
    → IsPort port
    → contains b'@' (with_port host port) ≡ false
unfolding contains
contains-with_port host none h hp = h
contains-with_port host (some port) h hp = ground (arith, contains-append b'@' host (b':' ∷ port))

-- A URI names a port exactly if a port stands behind its host, whatever userinfo without `/` and
-- `?` stands before it, and also where the host is an IPv6 address in brackets, whose colons are
-- not taken for one.
pub uri_has_explicit_port_lem :
    (scheme : Text) (userinfo : Option Text) (host : Text) (port : Option Text) (tail : Text)
    → IsScheme scheme
    → IsClean (with_userinfo userinfo (with_port host port))
    → IsHost host × (contains b'@' host ≡ false)
    → IsPort port
    → IsTail tail
    → uri_has_explicit_port (uri_text scheme (with_userinfo userinfo (with_port host port)) tail)
      ≡ is_some port
unfolding uri_has_explicit_port
uri_has_explicit_port_lem scheme userinfo host port tail known clean (hh, no_at) hp ends =
    rw
      (
        uri_authority_lem scheme _ tail known clean ends,
        hostpart_lem userinfo (with_port host port) (contains-with_port host port no_at hp),
      )
      (names_port_lem host port hh hp)
