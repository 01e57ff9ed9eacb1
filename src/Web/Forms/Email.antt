-- ===== src/Web/Forms/Email.antt =====
-- The expression for an email address, read as a regular expression.
use file_processing_platform.Common.{
  ◌≡◌, refl, ap, true, ◌↔◌, List, [], ◌∷◌, ◌++◌, ◌∙◌, arith, Bool-cases, inl, inr,
}
use file_processing_platform.Web.Forms.{
  Class, space, at, dot, other, all_plain, plain_to_end, dotted, domain, after_local, matches_email,
}

-- One or more characters of `[^\s@]`.
abbrev pub IsPart : List Class → Type 0
IsPart cs = plain_to_end cs ≡ true

-- A part, `@`, a part, a dot and a part.
pub record IsEmail (cs : List Class) : Type 0 where
  pub local : List Class
  pub host : List Class
  pub top : List Class
  pub split : cs ≡ local ++ at ∷ (host ++ dot ∷ top)
  pub local-IsPart : IsPart local
  pub host-IsPart : IsPart host
  pub top-IsPart : IsPart top

dotted_split :
    (cs : List Class)
    → dotted cs ≡ true
    → (host : List Class) × (top : List Class) × (cs ≡ host ++ dot ∷ top)
      × (all_plain host ≡ true)
      × IsPart top
dotted_split [] h = absurd (cc)
dotted_split (space ∷ cs) h = absurd (cc)
dotted_split (at ∷ cs) h = absurd (cc)
dotted_split (dot ∷ cs) h = elim (Bool-cases (plain_to_end cs)) [
  | inl part ↦ ([], cs, refl, refl, part)
  | inr short ↦
      let (host, top, split, plain, part) = dotted_split cs (ground (arith, short, h)) in
      (dot ∷ host, top, ap (λ t. dot ∷ t) split, plain, part)
]
dotted_split (other ∷ cs) h =
    let (host, top, split, plain, part) = dotted_split cs h in
    (other ∷ host, top, ap (λ t. other ∷ t) split, plain, part)

dotted_join :
    (host top : List Class) → all_plain host ≡ true → IsPart top → dotted (host ++ dot ∷ top) ≡ true
dotted_join [] top h part = rw part refl
dotted_join (space ∷ host) top h part = absurd (cc)
dotted_join (at ∷ host) top h part = absurd (cc)
dotted_join (dot ∷ host) top h part = let rest = dotted_join host top h part in ground (arith, rest)
dotted_join (other ∷ host) top h part = dotted_join host top h part

after_split :
    (cs : List Class)
    → after_local cs ≡ true
    → (local : List Class) × (rest : List Class) × (cs ≡ local ++ at ∷ rest)
      × (all_plain local ≡ true)
      × (domain rest ≡ true)
after_split [] h = absurd (cc)
after_split (space ∷ cs) h = absurd (cc)
after_split (at ∷ cs) h = ([], cs, refl, refl, h)
after_split (dot ∷ cs) h =
    let (local, rest, split, plain, dom) = after_split cs h in
    (dot ∷ local, rest, ap (λ t. dot ∷ t) split, plain, dom)
after_split (other ∷ cs) h =
    let (local, rest, split, plain, dom) = after_split cs h in
    (other ∷ local, rest, ap (λ t. other ∷ t) split, plain, dom)

after_join :
    (local rest : List Class)
    → all_plain local ≡ true
    → domain rest ≡ true
    → after_local (local ++ at ∷ rest) ≡ true
after_join [] rest h d = d
after_join (space ∷ local) rest h d = absurd (cc)
after_join (at ∷ local) rest h d = absurd (cc)
after_join (dot ∷ local) rest h d = after_join local rest h d
after_join (other ∷ local) rest h d = after_join local rest h d

domain_split :
    (cs : List Class)
    → domain cs ≡ true
    → (host : List Class) × (top : List Class) × (cs ≡ host ++ dot ∷ top) × IsPart host × IsPart top
domain_split [] h = absurd (cc)
domain_split (c ∷ cs) h =
    let (host, top, split, plain, part) = dotted_split cs (ground (arith, h)) in
    (c ∷ host, top, ap (λ t. c ∷ t) split, ground (arith, h, plain), part)

domain_join : (host top : List Class) → IsPart host → IsPart top → domain (host ++ dot ∷ top) ≡ true
domain_join [] top h part = absurd (cc)
domain_join (c ∷ host) top h part =
    let rest = dotted_join host top (ground (arith, h)) part in ground (arith, h, rest)

IsEmail-of_match : (cs : List Class) → matches_email cs ≡ true → IsEmail cs
unfolding matches_email
IsEmail-of_match [] h = absurd (cc)
IsEmail-of_match (c ∷ cs) h =
    let (local, rest, split, plain, dom) = after_split cs (ground (arith, h)) in
    let (host, top, split', part, part') = domain_split rest dom in
    record {
      local = c ∷ local;
      host = host;
      top = top;
      split = ap (λ t. c ∷ t) split ∙ ap (λ t. c ∷ local ++ at ∷ t) split';
      local-IsPart = ground (arith, h, plain);
      host-IsPart = part;
      top-IsPart = part';
    }

match_join :
    (local host top : List Class)
    → IsPart local
    → IsPart host
    → IsPart top
    → matches_email (local ++ at ∷ (host ++ dot ∷ top)) ≡ true
unfolding matches_email
match_join [] host top a b c = absurd (cc)
match_join (x ∷ local) host top a b c =
    let rest =
      after_join local (host ++ dot ∷ top) (ground (arith, a)) (domain_join host top b c) in
    ground (arith, a, rest)

match_of_email : (cs : List Class) → IsEmail cs → matches_email cs ≡ true
match_of_email cs h =
    ap matches_email h.split
    ∙ match_join h.local h.host h.top h.local-IsPart h.host-IsPart h.top-IsPart

-- The check of the forms accepts exactly the texts that are a part, `@`, a part, a dot and a part,
-- where a part is one or more characters other than white space and `@`.
pub matches_email-IsEmail : (cs : List Class) → (matches_email cs ≡ true) ↔ IsEmail cs
matches_email-IsEmail cs = (IsEmail-of_match cs, match_of_email cs)
