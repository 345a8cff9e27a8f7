-- ===== src/Normalise/Mailbox.antt =====
-- The local part of an address at a dot-insensitive domain: src/gateway/normalise/email.py.
use conversion_gateway.Prelude.{
  nat_eq, if◌then◌else◌, Bool-cases, ◌<>◌, is_blank, String, Char, code, ◌≡◌, refl, inl, inr, Bool,
  true, ◌||◌, arith, nil-append, cons-append,
}
use conversion_gateway.Normalise.Strings.{remove_if, contains_code, before_code, text_in}
use conversion_gateway.Normalise.Fields.{
  dot_insensitive_domains, mailbox, canonical_address, malformed, Outcome, value, reject,
}

abbrev is_dot : Char → Bool
is_dot c = nat_eq (code c) b'.'

dot_first : (b : String) → remove_if is_dot ("." <> b) ≡ remove_if is_dot b
unfolding remove_if
dot_first b = rw cons-append (rw nil-append refl)

plus_first : (b : String) → before_code b'+' ("+" <> b) ≡ ""
unfolding before_code
plus_first b = rw cons-append refl

-- A text without dots, of a text with one dot more.
remove-dot : (a b : String) → remove_if is_dot (a <> ("." <> b)) ≡ remove_if is_dot (a <> b)
unfolding remove_if
remove-dot String.[] b = simp (nil-append, dot_first)
remove-dot (String.◌∷◌ c a) b = simp (cons-append, remove-dot a b)

remove-append :
    (a b : String) → remove_if is_dot (a <> b) ≡ remove_if is_dot a <> remove_if is_dot b
unfolding remove_if
remove-append String.[] b = simp nil-append
remove-append (String.◌∷◌ c a) b = elim (Bool-cases (is_dot c)) [
  | inl dot ↦ simp (cons-append, dot, remove-append a b)
  | inr other ↦ simp (cons-append, other, remove-append a b)
]

before-plus : (a b : String) → before_code b'+' (a <> ("+" <> b)) ≡ before_code b'+' a
unfolding before_code
before-plus String.[] b = simp (nil-append, plus_first)
before-plus (String.◌∷◌ c a) b = simp (cons-append, before-plus a b)

mailbox-dot : (a b : String) → mailbox (a <> ("." <> b)) ≡ mailbox (a <> b)
unfolding mailbox
mailbox-dot a b = rw (remove-dot a b) refl

mailbox-tag : (a tag : String) → mailbox (a <> ("+" <> tag)) ≡ mailbox a
unfolding mailbox remove_if
mailbox-tag a tag =
    rw (remove-append a ("+" <> tag), remove-append "+" tag)
      (before-plus (remove_if is_dot a) (remove_if is_dot tag))

-- The canonical address at a dot-insensitive domain is a function of the mailbox alone.
abbrev of_mailbox : String → String → Outcome
of_mailbox box domain =
    if is_blank domain || contains_code b'@' domain
    then reject malformed
    else if is_blank box
    then reject malformed
    else value (box <> ("@" <> domain))

canonical-mailbox :
    (local domain : String)
    → text_in domain dot_insensitive_domains ≡ true
    → canonical_address local domain ≡ of_mailbox (mailbox local) domain
unfolding canonical_address mailbox remove_if before_code
canonical-mailbox String.[] domain known = ground arith
canonical-mailbox (String.◌∷◌ c local) domain known = ground arith

-- At a dot-insensitive domain, one dot more in the local part does not change the canonical address,
-- nor whether there is one.
canonical_address-dot :
    (a b domain : String)
    → text_in domain dot_insensitive_domains ≡ true
    → canonical_address (a <> ("." <> b)) domain ≡ canonical_address (a <> b) domain
canonical_address-dot a b domain known =
    rw
      (
        canonical-mailbox (a <> ("." <> b)) domain known,
        canonical-mailbox (a <> b) domain known,
        mailbox-dot a b,
      )
      refl

-- At a dot-insensitive domain, a plus tag after the local part does not change it either.
canonical_address-tag :
    (a tag domain : String)
    → text_in domain dot_insensitive_domains ≡ true
    → canonical_address (a <> ("+" <> tag)) domain ≡ canonical_address a domain
canonical_address-tag a tag domain known =
    rw
      (
        canonical-mailbox (a <> ("+" <> tag)) domain known,
        canonical-mailbox a domain known,
        mailbox-tag a tag,
      )
      refl

-- At a dot-insensitive domain, neither one dot more in the local part nor a plus tag after it changes
-- the canonical address, nor whether there is one.
pub canonical_address-mailbox :
    (a b tag domain : String)
    → text_in domain dot_insensitive_domains ≡ true
    → (canonical_address (a <> ("." <> b)) domain ≡ canonical_address (a <> b) domain)
      × (canonical_address (a <> ("+" <> tag)) domain ≡ canonical_address a domain)
canonical_address-mailbox a b tag domain known =
    (canonical_address-dot a b domain known, canonical_address-tag a tag domain known)
