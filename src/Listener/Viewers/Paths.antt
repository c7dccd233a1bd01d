-- ===== src/Listener/Viewers/Paths.antt =====
-- Which paths internal/servent/listener.go takes for a channel.
use peercast_mi.Base.{
  ℕ, zero, suc, ◌≡◌, ◌≢◌, refl, sym, ap, subst, ap₂, ◌∙◌, ◌↔◌, ◌⊎◌, inl, inr, false, ◌||◌, ◌==◌,
  nat_eq, any, ltb, List, [], ◌∷◌, ◌++◌, Option, some, All, arith, length, take, drop,
  length-append, length-take, Option-cases, Bool-cases, beq-cases,
}
use peercast_mi.Pcp.{GnuId}
use peercast_mi.Listener.Viewers.{
  after_prefix, is_bad_extension, parse_digits, parse_channel_id_path,
}

-- Nothing, or a dot and a name that is not empty and has neither slashes nor dots.
abbrev pub IsExtension : List ℕ → Type 0
IsExtension ext =
    (ext ≡ [])
    ⊎ ((name : List ℕ) × (ext ≡ b'.' ∷ name)
        × (name ≢ [])
        × All (λ x. (x ≢ b'/') × (x ≢ b'.')) name)

after_prefix_lem :
    (prefix path rest : List ℕ) → (after_prefix prefix path ≡ some rest) ↔ (path ≡ prefix ++ rest)
unfolding after_prefix
after_prefix_lem [] path rest = (λ e. cc e, λ e. ap some e)
after_prefix_lem (c ∷ prefix) [] rest = (λ e. cc e, λ e. cc e)
after_prefix_lem (c ∷ prefix) (d ∷ path) rest =
    let (to, from) = after_prefix_lem prefix path rest in
    elim (beq-cases c d) [
      | inl (b, e) ↦ rw b (λ h. ap₂ ◌∷◌ (sym e) (to h), λ h. from (cc h))
      | inr (b, ne) ↦ rw b (λ h. cc h, λ h. absurd (ne (cc h)))
    ]

take-append : (ys zs : List ℕ) → take (length ys) (ys ++ zs) ≡ ys
take-append [] zs = refl
take-append (y ∷ ys) zs = ap (◌∷◌ y) (take-append ys zs)

drop-append : (ys zs : List ℕ) → drop (length ys) (ys ++ zs) ≡ zs
drop-append [] zs = refl
drop-append (y ∷ ys) zs = drop-append ys zs

take-drop_id : (n : ℕ) (xs : List ℕ) → xs ≡ take n xs ++ drop n xs
take-drop_id zero xs = refl
take-drop_id (suc n) [] = refl
take-drop_id (suc n) (x ∷ xs) = ap (◌∷◌ x) (take-drop_id n xs)

-- A byte that a name may have.
abbrev IsPlainByte : ℕ → Type 0
IsPlainByte x = (x ≢ b'/') × (x ≢ b'.')

no_mark : (name : List ℕ) → (any (λ x. x == b'/' || x == b'.') name ≡ false) ↔ All IsPlainByte name
no_mark [] = (λ h. tt, λ h. refl)
no_mark (x ∷ name) =
    let (to, from) = no_mark name in
    (
      λ h. ((ground (arith, h), ground (arith, h)), to (ground (arith, h))),
      λ (a, b). ground (arith, a.0, a.1, from b),
    )

is_bad_extension_iff : (ext : List ℕ) → (is_bad_extension ext ≡ false) ↔ IsExtension ext
unfolding is_bad_extension
is_bad_extension_iff [] = (λ h. inl refl, λ h. refl)
is_bad_extension_iff (c ∷ []) = (
  λ h. ground (arith, h),
  λ h. elim h [ inl e ↦ cc e | inr (name, e, ne, a) ↦ absurd (ne (cc e)) ],
)
is_bad_extension_iff (c ∷ d ∷ name) =
    let (to, from) = no_mark (d ∷ name) in
    (
      λ h. inr (
        d ∷ name,
        ap (λ x. x ∷ d ∷ name) (ground (arith, h)),
        (λ e. cc e),
        to (ground (arith, h)),
      ),
      λ h. elim h [
        | inl e ↦ cc e
        | inr (name', e, ne, a) ↦
            let same : d ∷ name ≡ name' = cc e in
            let dot : c ≡ b'.' = cc e in
            ground (arith, dot, from (subst (All IsPlainByte) (sym same) a))
      ],
    )

module _ (decode : List ℕ → Option GnuId) where
  -- The digits and what follows them.
  Named : List ℕ → GnuId → Type 0
  Named rest id =
      (digits ext : List ℕ) × (rest ≡ digits ++ ext)
      × (length digits ≡ 32)
      × (decode digits ≡ some id)
      × IsExtension ext

  Named-parse_digits :
      (rest : List ℕ) (id : GnuId) → parse_digits decode rest ≡ some id → Named rest id
  unfolding parse_digits Named
  Named-parse_digits rest id = elim (Bool-cases (ltb (length rest) 32)) [
    | inl short ↦ rw short (λ h. cc h)
    | inr long ↦ elim (Bool-cases (is_bad_extension (drop 32 rest))) [
      | inl bad ↦ rw (long, bad) (λ h. cc h)
      | inr good ↦
          rw (long, good)
            (λ h. (
              take 32 rest,
              drop 32 rest,
              take-drop_id 32 rest,
              ground (arith, long, length-take 32 rest),
              h,
              (is_bad_extension_iff (drop 32 rest)).0 good,
            ))
    ]
  ]

  parse_digits-Named :
      (rest : List ℕ) (id : GnuId) → Named rest id → parse_digits decode rest ≡ some id
  unfolding parse_digits Named
  parse_digits-Named rest id (digits, ext, e, l, d, x) =
      let taken : take 32 rest ≡ digits =
        ap (take 32) e ∙ subst (λ n. take n (digits ++ ext) ≡ digits) l (take-append digits ext) in
      let left : drop 32 rest ≡ ext =
        ap (drop 32) e ∙ subst (λ n. drop n (digits ++ ext) ≡ ext) l (drop-append digits ext) in
      let long : ltb (length rest) 32 ≡ false =
        ground (arith, ap length e, l, length-append digits ext) in
      rw (long, left, (is_bad_extension_iff ext).1 x, taken) d

  -- A path names a channel exactly when it is the prefix, 32 characters that decode to the
  -- channel's identifier, and nothing or an extension: a dot and a name that is not empty and has
  -- neither slashes nor dots.
  pub parse_channel_id_path_iff :
      (path prefix : List ℕ) (id : GnuId)
      → (parse_channel_id_path decode path prefix ≡ some id) ↔ (
          (digits ext : List ℕ) × (path ≡ prefix ++ (digits ++ ext))
          × (length digits ≡ 32)
          × (decode digits ≡ some id)
          × IsExtension ext)
  unfolding parse_channel_id_path Named
  parse_channel_id_path_iff path prefix id = (
    elim (Option-cases (after_prefix prefix path)) [
      | inl e ↦ rw (e, parse_channel_id_path) (λ h. cc h)
      | inr (rest, e) ↦
          rw (e, parse_channel_id_path)
            (λ h.
              let (digits, ext, s, l, d, x) = Named-parse_digits rest id h in
              (digits, ext, (after_prefix_lem prefix path rest).0 e ∙ ap (◌++◌ prefix) s, l, d, x))
    ],
    λ (digits, ext, e, l, d, x).
        rw ((after_prefix_lem prefix path (digits ++ ext)).1 e, parse_channel_id_path)
          (parse_digits-Named (digits ++ ext) id (digits, ext, refl, l, d, x)),
  )
