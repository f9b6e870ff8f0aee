-- ===== src/Netlink/Gateways.antt =====
-- Which default gateway `find_default_gateway` takes.
use xdp_rs.Prelude.{
  ℕ, zero, suc, ◌<◌, ◌≡◌, refl, arith, not, Bool, true, false, Option, none, some, ◌&&◌, ◌||◌, List,
  [], ◌∷◌, ◌++◌, ltb, leb, ◌==◌, Bool-cases, ◌⊎◌, inl, inr, ap,
}
use xdp_rs.Netlink.{Ipv4Route, Gateway, matched, candidate, fold_routes, find_default_gateway}

abbrev pub is_some : Option ℕ → Bool
is_some none = false
is_some (some x) = true

-- A default route with a gateway and an output interface.
abbrev pub is_default : Ipv4Route → Bool
is_default x = x.dest_prefix == 0 && is_some x.gateway && is_some x.out_if_index

-- Every default route of the list has a priority above `p`, or of at least `p`.
abbrev pub all_above : ℕ → List Ipv4Route → Bool
all_above p [] = true
all_above p (x ∷ xs) = (not (is_default x) || ltb p x.priority) && all_above p xs

abbrev pub all_from : ℕ → List Ipv4Route → Bool
all_from p [] = true
all_from p (x ∷ xs) = (not (is_default x) || leb p x.priority) && all_from p xs

abbrev pub none_default : List Ipv4Route → Bool
none_default [] = true
none_default (x ∷ xs) = not (is_default x) && none_default xs

-- The gateway of a default route.
pub record IsGatewayOf (x : Ipv4Route) (g : Gateway) : Type 0 where
  pub anywhere : x.dest_prefix ≡ 0
  pub via : x.gateway ≡ some g.ip
  pub out : x.out_if_index ≡ some g.if_index
  pub priority : x.priority ≡ g.priority

-- `g` is the gateway of a default route of the list, which is the first of the least priority.
abbrev pub IsFirstLeast : Gateway → List Ipv4Route → Type 0
IsFirstLeast g routes =
    (before : List Ipv4Route) × (x : Ipv4Route) × (after : List Ipv4Route) × (routes
      ≡ before ++ (x ∷ after))
    × IsGatewayOf x g
    × (all_above g.priority before ≡ true)
    × (all_from g.priority after ≡ true)

abbrev pub IsChosen : Option Gateway → List Ipv4Route → Type 0
IsChosen none routes = none_default routes ≡ true
IsChosen (some g) routes = IsFirstLeast g routes

-- A route that the fold passes over is no default route; of another it takes the gateway.
matched_lem :
    (x : Ipv4Route) (prefix : ℕ) (gateway out_if_index : Option ℕ)
    → x.dest_prefix ≡ prefix
    → x.gateway ≡ gateway
    → x.out_if_index ≡ out_if_index
    → ((matched prefix gateway out_if_index x.priority ≡ none) × (is_default x ≡ false))
      ⊎ ((g : Gateway) × (matched prefix gateway out_if_index x.priority ≡ some g)
          × (is_default x ≡ true)
          × IsGatewayOf x g)
matched_lem x zero (some gw) (some oif) d v i = inr (
  record { ip = gw; priority = x.priority; if_index = oif },
  refl,
  rw (d, v, i) refl,
  record { anywhere = d; via = v; out = i; priority = refl },
)
matched_lem x zero (some gw) none d v i = inl (refl, rw (d, v, i) refl)
matched_lem x zero none oif d v i = inl (refl, rw (d, v) refl)
matched_lem x (suc p) gw oif d v i = inl (refl, rw d (ground arith))

candidate_lem :
    (x : Ipv4Route)
    → ((candidate x ≡ none) × (is_default x ≡ false))
      ⊎ ((g : Gateway) × (candidate x ≡ some g) × (is_default x ≡ true) × IsGatewayOf x g)
candidate_lem x = matched_lem x x.dest_prefix x.gateway x.out_if_index refl refl refl

-- One more route in front, which is no default route or has a greater priority.
pushed_first :
    (x : Ipv4Route) (g : Gateway) (xs : List Ipv4Route)
    → (not (is_default x) || ltb g.priority x.priority) ≡ true
    → IsFirstLeast g xs
    → IsFirstLeast g (x ∷ xs)
pushed_first x g xs later (before, y, after, e, of, above, from) =
    (x ∷ before, y, after, ap (λ l. x ∷ l) e, of, rw (later, above) refl, from)

fold_some :
    (a : Gateway) (xs : List Ipv4Route)
    → (g : Gateway) × (fold_routes (some a) xs ≡ some g)
      × (((g ≡ a) × (all_from a.priority xs ≡ true))
          ⊎ ((g.priority < a.priority) × IsFirstLeast g xs))
fold_some a [] = (a, refl, inl (refl, refl))
fold_some a (x ∷ xs) = elim (candidate_lem x) [
  | inl (skip, plain) ↦
      let rest = fold_some a xs in
      (
        rest.0,
        rw skip (rest.1),
        elim (rest.2) [
          | inl (e, from) ↦ inl (e, rw (plain, from) refl)
          | inr (lt, least) ↦ inr (lt, pushed_first x (rest.0) xs (rw plain refl) least)
        ],
      )
  | inr (c, found, default, of) ↦ elim (Bool-cases (ltb c.priority a.priority)) [
    | inl better ↦
        let rest = fold_some c xs in
        (
          rest.0,
          rw (found, better) (rest.1),
          inr (elim (rest.2) [
            | inl (e, from) ↦ rw e (ground arith, ([], x, xs, refl, of, refl, from))
            | inr (lt, least) ↦ (
              ground arith,
              pushed_first x (rest.0) xs (rw (default, of.priority) (ground arith)) least,
            )
          ]),
        )
    | inr worse ↦
        let rest = fold_some a xs in
        (
          rest.0,
          rw (found, worse) (rest.1),
          elim (rest.2) [
            | inl (e, from) ↦ inl (e, rw (default, of.priority, from) (ground arith))
            | inr (lt, least) ↦
                inr
                  (lt, pushed_first x (rest.0) xs (rw (default, of.priority) (ground arith)) least)
          ],
        )
  ]
]

fold_none : (xs : List Ipv4Route) → IsChosen (fold_routes none xs) xs
fold_none [] = refl
fold_none (x ∷ xs) = elim (candidate_lem x) [
  | inl (skip, plain) ↦ rw skip (passed_over (fold_routes none xs) plain (fold_none xs))
  | inr (c, found, default, of) ↦
      let rest = fold_some c xs in
      rw (found, rest.1)
        (elim (rest.2) [
          | inl (e, from) ↦ rw e ([], x, xs, refl, of, refl, from)
          | inr (lt, least) ↦
              pushed_first x (rest.0) xs (rw (default, of.priority) (ground arith)) least
        ])
]
  where
    passed_over : (o : Option Gateway) → is_default x ≡ false → IsChosen o xs → IsChosen o (x ∷ xs)
    passed_over none plain h = rw (plain, h) refl
    passed_over (some g) plain h = pushed_first x g xs (rw plain refl) h

-- If `find_default_gateway` gives nothing, no route has prefix length 0, a gateway and an output
-- interface; if it gives a gateway, its address, interface and priority are those of such a route, all
-- such routes before that one have a greater priority, and all behind it have at least the same.
pub find_default_gateway_lem :
    (routes : List Ipv4Route) → IsChosen (find_default_gateway routes) routes
unfolding find_default_gateway
find_default_gateway_lem routes = fold_none routes
