-- ===== src/Plugins/Remote/Merged.antt =====
-- The merged list of plugins elsewhere: fetch_remote_list of
-- backend/app/admin/service/plugin_service.py.
use mathlib.Core.Path.{subst}
use mc_bd.Prelude.{
  ◌≡◌, refl, ap, sym, ◌∙◌, Bool, true, false, ◌||◌, Option, none, some, List, [], ◌∷◌, ◌++◌, arith,
  Bool-cases, inl, inr,
}
use mc_bd.Prelude.Text.{Text, text_eq, eq_of_text_eq, text_eq_of_ne, ne_of_text_eq}
use mc_bd.Errors.{Result, ok, err, err_ne_ok}
use mc_bd.Redis.{mem}
use mc_bd.Plugins.Host.{Host}
use mc_bd.Plugins.Registry.{then_ok}
use mc_bd.Plugins.Registry.Restart.{Distinct}
use mc_bd.Plugins.Remote.{
  Item, entry, malformed, Response, parse_remote_response, counted_name, Merge, add_named,
  add_items, add_response, add_all, fetch_remote_list,
}

ok_injective : {A : Type 0} {a b : A} → ok a ≡ ok b → a ≡ b
ok_injective h = cc h

then_ok-ok :
    {A B : Type 0} (r : Result A) (f : A → Result B) (b : B)
    → then_ok r f ≡ ok b
    → (a : A) × (r ≡ ok a) × (f a ≡ ok b)
then_ok-ok (ok a) f b h = (a, refl, h)
then_ok-ok (err e) f b h = absurd (err_ne_ok e b h)

-- The name of an item that counts
unfoldable pub item_name : Item → Option Text
unfolding counted_name
item_name malformed = none
item_name (entry p n t) = counted_name p n

unfoldable pub named_first : Option Text → List Text → List Text
named_first none rest = rest
named_first (some k) rest = k ∷ rest

unfoldable pub names : List Item → List Text
unfolding item_name named_first
names [] = []
names (i ∷ l) = named_first (item_name i) (names l)

named_first-append :
    (o : Option Text) (k l : List Text) → named_first o k ++ l ≡ named_first o (k ++ l)
unfolding named_first
named_first-append none k l = refl
named_first-append (some n) k l = refl

names-append : (l r : List Item) → names (l ++ r) ≡ names l ++ names r
unfolding names
names-append [] r = refl
names-append (i ∷ l) r =
    ap (named_first (item_name i)) (names-append l r)
    ∙ sym (named_first-append (item_name i) (names l) (names r))

mem-append : (k : Text) (l r : List Text) → mem k (l ++ r) ≡ (mem k l || mem k r)
unfolding mem
mem-append k [] r = refl
mem-append k (j ∷ l) r = ground (arith, mem-append k l r)

Distinct-snoc : (l : List Text) (n : Text) → Distinct l → mem n l ≡ false → Distinct (l ++ n ∷ [])
unfolding mem
Distinct-snoc [] n h m = (refl, tt)
Distinct-snoc (j ∷ l) n h m = elim (Bool-cases (text_eq j n)) [
  | inl same ↦ absurd (ground (arith, m, same))
  | inr apart ↦ (
    mem-append j l (n ∷ []) ∙ ground (arith, h.0, flipped apart),
    Distinct-snoc l n h.1 (ground (arith, m, apart)),
  )
]
  where
    flipped : text_eq j n ≡ false → text_eq n j ≡ false
    flipped e = text_eq_of_ne n j (λ q. ne_of_text_eq j n e (sym q))

-- The names seen are those of the items kept, and no name is kept twice.
record IsMerged (m : Merge) : Type 0 where
  same : (k : Text) → mem k m.seen ≡ mem k (names m.result)
  distinct : Distinct (names m.result)

-- The items have gone into the merge: it is one, and has just their names more.
abbrev Absorbed : Merge → Merge → List Text → Type 0
Absorbed m m' l =
    IsMerged m' × ((k : Text) → mem k (names m'.result) ≡ (mem k (names m.result) || mem k l))

or_false : (b : Bool) → b ≡ (b || false)
or_false true = refl
or_false false = refl

add_named-Absorbed :
    (i : Item) (o : Option Text) (m : Merge)
    → item_name i ≡ o
    → IsMerged m
    → Absorbed m (add_named i o m) (named_first o [])
unfolding add_named named_first mem names
add_named-Absorbed i none m e g = (g, λ k. or_false (mem k (names m.result)))
add_named-Absorbed i (some n) m e g = elim (Bool-cases (mem n m.seen)) [
  | inl old ↦ rw old (g, λ k. known k (sym (g.same n) ∙ old))
  | inr new ↦ rw new (
    record {
      same = λ k. extended k;
      distinct =
          subst Distinct (sym kept)
            (Distinct-snoc (names m.result) n g.distinct (sym (g.same n) ∙ new));
    },
    λ k. ap (mem k) kept ∙ mem-append k (names m.result) (n ∷ []),
  )
]
  where
    known :
        (k : Text)
        → mem n (names m.result) ≡ true
        → mem k (names m.result) ≡ (mem k (names m.result) || (text_eq n k || false))
    known k h = elim (Bool-cases (text_eq n k)) [
      | inl here ↦ rw (here, sym (eq_of_text_eq n k here), h)
      | inr apart ↦ rw apart (or_false (mem k (names m.result)))
    ]

    kept : names (m.result ++ i ∷ []) ≡ names m.result ++ n ∷ []
    kept =
        names-append m.result (i ∷ [])
        ∙ ap (λ (o : Option Text). names m.result ++ named_first o []) e

    extended : (k : Text) → (text_eq n k || mem k m.seen) ≡ mem k (names (m.result ++ i ∷ []))
    extended k = ground (arith, g.same k, ap (mem k) kept, mem-append k (names m.result) (n ∷ []))

Absorbed-trans :
    (m m1 m2 : Merge) (a b : List Text)
    → Absorbed m m1 a
    → Absorbed m1 m2 b
    → Absorbed m m2 (a ++ b)
Absorbed-trans m m1 m2 a b (g, h) (g', h') = (g', λ k. ground (arith, h k, h' k, mem-append k a b))

Absorbed-refl : (m : Merge) → IsMerged m → Absorbed m m []
unfolding mem
Absorbed-refl m g = (g, λ k. or_false (mem k (names m.result)))

add_items-Absorbed :
    (l : List Item) (m m' : Merge) → IsMerged m → add_items l m ≡ ok m' → Absorbed m m' (names l)
unfolding add_items names item_name
add_items-Absorbed [] m m' g h = subst (λ t. Absorbed m t []) (ok_injective h) (Absorbed-refl m g)
add_items-Absorbed (malformed ∷ l) m m' g h = absurd (err_ne_ok _ m' h)
add_items-Absorbed (entry p n t ∷ l) m m' g h =
    let one = add_named-Absorbed (entry p n t) (counted_name p n) m refl g in
    let middle = add_named (entry p n t) (counted_name p n) m in
    subst (Absorbed m m') (named_first-append (counted_name p n) [] (names l)) (
      Absorbed-trans m middle m' (named_first (counted_name p n) []) (names l) one
        (add_items-Absorbed l middle m' one.0 h))

-- The names that an address answers with
unfoldable pub answered : Option Response → List Text
answered none = []
answered (some r) = names (parse_remote_response r)

unfoldable pub all_answered : (Text → Option Response) → List Text → List Text
unfolding answered
all_answered client [] = []
all_answered client (u ∷ us) = answered (client u) ++ all_answered client us

add_response-Absorbed :
    (r : Option Response) (m m' : Merge)
    → IsMerged m
    → add_response r m ≡ ok m'
    → Absorbed m m' (answered r)
unfolding add_response answered
add_response-Absorbed none m m' g h =
    subst (λ t. Absorbed m t []) (ok_injective h) (Absorbed-refl m g)
add_response-Absorbed (some r) m m' g h = add_items-Absorbed (parse_remote_response r) m m' g h

add_all-Absorbed :
    (client : Text → Option Response) (us : List Text) (m m' : Merge)
    → IsMerged m
    → add_all client us m ≡ ok m'
    → Absorbed m m' (all_answered client us)
unfolding add_all all_answered
add_all-Absorbed client [] m m' g h =
    subst (λ t. Absorbed m t []) (ok_injective h) (Absorbed-refl m g)
add_all-Absorbed client (u ∷ us) m m' g h =
    let (m1, e, k) = then_ok-ok (add_response (client u) m) (add_all client us) m' h in
    let one = add_response-Absorbed (client u) m m1 g e in
    Absorbed-trans m m1 m' (answered (client u)) (all_answered client us) one
      (add_all-Absorbed client us m1 m' one.0 k)

-- The merged list, if no item of an answer is malformed, has no name twice, and its names are those
-- of the items that the addresses answered with.
pub fetch_remote_list-names :
    (H : Host) (client : Text → Option Response) (urls : List Text) (l : List Item)
    → fetch_remote_list H client urls ≡ ok l
    → Distinct (names l)
      × ((k : Text) → mem k (names l) ≡ mem k (all_answered (λ u. client (H.strip u)) urls))
unfolding fetch_remote_list mem names
fetch_remote_list-names H client urls l h =
    let start : Merge = record { seen = []; result = [] } in
    let (m, e, k) =
      then_ok-ok (add_all (λ u. client (H.strip u)) urls start) (λ (m : Merge). ok m.result) l h in
    let all =
      add_all-Absorbed (λ u. client (H.strip u)) urls start m
        (record { same = λ n. refl; distinct = tt }) e in
    let same : m.result ≡ l = ok_injective k in
    (
      subst (λ t. Distinct (names t)) same all.0.distinct,
      λ n. ap (λ t. mem n (names t)) (sym same) ∙ all.1 n,
    )
