-- ===== src/Dispatcher/Nodes/Least.antt =====
-- Which node is chosen for a new client.
use waterbus_rs.Base.{
  ◌≡◌, ◌≢◌, refl, sym, ◌∙◌, subst, Bool, true, false, ◌&&◌, ◌⊎◌, inl, inr, String, string_eq,
  str_eq, eq_iff, Option, none, some, List, [], ◌∷◌, arith, All, Bool-cases,
}
use waterbus_rs.Table.{Table, get}
use waterbus_rs.Table.Keys.{IsMap}
use waterbus_rs.Dispatcher.Nodes.{
  Float, NodeMetadata, Nodes, greater, is_gt, least_from, get_node_least,
}

abbrev Has : {A : Type 0} → A → List A → Type 0
Has a [] = ⊥
Has a (x ∷ xs) = (a ≡ x) ⊎ Has a xs

module _ (f : Float) where
  abbrev pub exceeds : f.F32 → f.F32 → Bool
  exceeds a b = is_gt f (f.partial_cmp a b)

  -- The order of the numbers that are compared: as for `f32` where no value is NaN.
  pub record IsOrdered : Type 0 where
    pub irrefl : (a : f.F32) → exceeds a a ≡ false
    pub asymm : (a b : f.F32) → exceeds a b ≡ true → exceeds b a ≡ false
    pub trans : (a b c : f.F32) → exceeds a b ≡ false → exceeds b c ≡ false → exceeds a c ≡ false

module _ (f : Float) (o : IsOrdered f) (group : String) where
  -- No node of the group is less than `m`.
  abbrev IsLeast : NodeMetadata f → Nodes f → Type 0
  IsLeast m = All (λ x. (str_eq x.1.group_id group && greater f m x.1) ≡ false)

  record Found (best : String × NodeMetadata f) (nodes : Nodes f)
      (r : Option (String × NodeMetadata f)) : Type 0 where
    e : String × NodeMetadata f
    is : r ≡ some e
    has : (e ≡ best) ⊎ Has e nodes
    grouped : str_eq e.1.group_id group ≡ true
    below : greater f e.1 best.1 ≡ false
    least : IsLeast e.1 nodes

  skipped :
      {r : Option (String × NodeMetadata f)} (x : String × NodeMetadata f) (rest : Nodes f)
      (best : String × NodeMetadata f)
      → str_eq x.1.group_id group ≡ false
      → Found best rest r
      → Found best (x ∷ rest) r
  skipped x rest best other h = record {
    e = h.e;
    is = h.is;
    has = ground (arith, h.has);
    grouped = h.grouped;
    below = h.below;
    least = (rw other, h.least);
  }

  kept :
      {r : Option (String × NodeMetadata f)} (x : String × NodeMetadata f) (rest : Nodes f)
      (best : String × NodeMetadata f)
      → greater f best.1 x.1 ≡ false
      → Found best rest r
      → Found best (x ∷ rest) r
  kept x rest best worse h = record {
    e = h.e;
    is = h.is;
    has = ground (arith, h.has);
    grouped = h.grouped;
    below = h.below;
    least = (ground (arith, o.trans h.e.1.cpu best.1.cpu x.1.cpu h.below worse), h.least);
  }

  replaced :
      {r : Option (String × NodeMetadata f)} (x : String × NodeMetadata f) (rest : Nodes f)
      (best : String × NodeMetadata f)
      → greater f best.1 x.1 ≡ true
      → Found x rest r
      → Found best (x ∷ rest) r
  replaced x rest best better h = record {
    e = h.e;
    is = h.is;
    has = inr h.has;
    grouped = h.grouped;
    below = o.trans h.e.1.cpu x.1.cpu best.1.cpu h.below (o.asymm best.1.cpu x.1.cpu better);
    least = (ground (arith, h.below), h.least);
  }

  least_from-Found :
      (nodes : Nodes f) (best : String × NodeMetadata f)
      → str_eq best.1.group_id group ≡ true
      → Found best nodes (least_from f group (some best) nodes)
  unfolding least_from
  least_from-Found [] best g = record {
    e = best;
    is = refl;
    has = inl refl;
    grouped = g;
    below = o.irrefl best.1.cpu;
    least = tt;
  }
  least_from-Found (x ∷ rest) best g = elim (Bool-cases (str_eq x.1.group_id group)) [
    | inr other ↦ rw other (skipped x rest best other (least_from-Found rest best g))
    | inl same ↦ elim (Bool-cases (greater f best.1 x.1)) [
      | inl better ↦ rw (same, better) (replaced x rest best better (least_from-Found rest x same))
      | inr worse ↦ rw (same, worse) (kept x rest best worse (least_from-Found rest best g))
    ]
  ]

  -- Before the first node of the group is met.
  least_from_none :
      (nodes : Nodes f)
      → ((e : String × NodeMetadata f) × (least_from f group none nodes ≡ some e)
          × Has e nodes
          × (str_eq e.1.group_id group ≡ true)
          × IsLeast e.1 nodes)
        ⊎ ((least_from f group none nodes ≡ none)
            × All (λ x. str_eq x.1.group_id group ≡ false) nodes)
  unfolding least_from
  least_from_none [] = inr (refl, tt)
  least_from_none (x ∷ rest) = elim (Bool-cases (str_eq x.1.group_id group)) [
    | inl same ↦ rw same (
        let h = least_from-Found rest x same in
        inl (h.e, h.is, h.has, h.grouped, (h.below, h.least)))
    | inr other ↦ rw other (elim (least_from_none rest) [
      | inl (e, is, has, grouped, least) ↦ inl (e, is, inr has, grouped, (refl, least))
      | inr (is, out) ↦ inr (is, (refl, out))
    ])
  ]

some_eq : {A : Type 0} {a b : A} → some a ≡ some b → a ≡ b
some_eq h = cc

get_of_Has :
    {V : Type 0} (nodes : Table String V) (e : String × V)
    → IsMap nodes
    → Has e nodes
    → get e.0 nodes ≡ some e.1
unfolding get
get_of_Has [] e m h = absurd h
get_of_Has ((k, v) ∷ nodes) e m (inl p) = ground (arith, eq_iff k e.0, p)
get_of_Has ((k, v) ∷ nodes) e m (inr h) =
    ground (arith, eq_iff k e.0, get_of_Has nodes e m.1 h, m.0)

all_get :
    {V : Type 0} (P : V → Type 0) (nodes : Table String V) (id : String) (v : V)
    → All (λ x. P x.1) nodes
    → get id nodes ≡ some v
    → P v
unfolding get
all_get P [] id v h e = absurd (unfold get in cc e)
all_get P ((k, w) ∷ nodes) id v h e = elim (Bool-cases (str_eq k id)) [
  | inl hit ↦ subst P (some_eq (rw hit at e)) h.0
  | inr miss ↦ all_get P nodes id v h.1 (rw miss at e)
]

module _ (f : Float) (o : IsOrdered f) (group : String) (nodes : Nodes f)
    (is_map : IsMap nodes) where
  -- Of nodes with different ids, where the numbers are ordered, the node that is chosen for a group is
  -- one that is known, is of the group, and has a number for its CPU that is not greater than that of
  -- any node of the group.
  pub chosen_node :
      (id other : String) (m n : NodeMetadata f)
      → get_node_least f group nodes ≡ some (id, m)
      → get other nodes ≡ some n
      → n.group_id ≡ group
      → (get id nodes ≡ some m) × (m.group_id ≡ group) × (exceeds f m.cpu n.cpu ≡ false)
  unfolding get_node_least
  chosen_node id other m n chosen known same = elim (least_from_none f o group nodes) [
    | inl (e, is, has, grouped, least) ↦
        subst
          (λ x.
            (get x.0 nodes ≡ some x.1) × (x.1.group_id ≡ group) × (exceeds f x.1.cpu n.cpu ≡ false))
          (some_eq (sym is ∙ chosen))
          (
            get_of_Has nodes e is_map has,
            (eq_iff e.1.group_id group).0 grouped,
            ground (
              arith,
              eq_iff n.group_id group,
              all_get (λ v. (str_eq v.group_id group && greater f e.1 v) ≡ false) nodes other n
                  least known,
            ),
          )
    | inr (is, out) ↦ cc
  ]

  -- No node is chosen only where no node that is known is of the group.
  pub no_node_chosen :
      (id : String) (m : NodeMetadata f)
      → get_node_least f group nodes ≡ none
      → get id nodes ≡ some m
      → m.group_id ≢ group
  unfolding get_node_least
  no_node_chosen id m none_chosen known same = elim (least_from_none f o group nodes) [
    | inl (e, is, has, grouped, least) ↦ cc
    | inr (is, out) ↦ cc (
      all_get (λ v. str_eq v.group_id group ≡ false) nodes id m out known,
      (eq_iff m.group_id group).1 same,
    )
  ]
