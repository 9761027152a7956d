-- ===== src/Content/Publication/Status.antt =====
-- What the derived publication status says of the receipts.
use geoplane.Base.{
  ℕ, ◌≤◌, String, Bool, true, false, ◌≡◌, refl, sym, ap, ◌∙◌, ◌≢◌, ◌↔◌, ◌==◌, Option, none, some,
  List, [], ◌∷◌, ◌++◌, map, Memᴰ, arith, eq_iff, includes, includes_iff, all, filter, is_empty,
  mem-filter_iff, if◌then◌else◌,
}
use geoplane.Content.Publication.{
  DistributionPlan, PublicationReceipt, PublicationStatus, packaged, channels_selected,
  partially_published, published, published_channel_ids, derive_publication_status,
}

-- A receipt for the plan on the channel.
pub record HasReceipt (plan : DistributionPlan) (receipts : List PublicationReceipt)
    (channel_id : String) : Type 0 where
  pub receipt : PublicationReceipt
  pub recorded : Memᴰ receipt receipts
  pub for_plan : receipt.distribution_plan_id ≡ plan.id
  pub on_channel : receipt.channel_id ≡ channel_id

mem_map :
    {A B : Type 0} (f : A → B) (xs : List A) (b : B)
    → Memᴰ b (map f xs)
    → (a : A) × Memᴰ a xs × (f a ≡ b)
mem_map f [] b m = elim m [ ]
mem_map f (x ∷ xs) b (Memᴰ.head e) = (x, Memᴰ.head refl, sym e)
mem_map f (x ∷ xs) b (Memᴰ.tail m) = let (a, old, e) = mem_map f xs b m in (a, Memᴰ.tail old, e)

map_mem :
    {A B : Type 0} (f : A → B) (xs : List A) (a : A) (b : B)
    → Memᴰ a xs
    → f a ≡ b
    → Memᴰ b (map f xs)
map_mem f [] a b m e = elim m [ ]
map_mem f (x ∷ xs) a b (Memᴰ.head p) e = Memᴰ.head (sym e ∙ ap f p)
map_mem f (x ∷ xs) a b (Memᴰ.tail m) e = Memᴰ.tail (map_mem f xs a b m e)

pub published_channel_ids_iff :
    (plan : DistributionPlan) (receipts : List PublicationReceipt) (c : String)
    → (includes (published_channel_ids plan receipts) c ≡ true) ↔ HasReceipt plan receipts c
unfolding published_channel_ids
published_channel_ids_iff plan receipts c =
    let mine = λ (r : PublicationReceipt). r.distribution_plan_id == plan.id in
    let channel = λ (r : PublicationReceipt). r.channel_id in
    (
      (λ h.
          let (r, kept, e) = mem_map channel (filter mine receipts) c ((includes_iff _ c).0 h) in
          let (old, own) = (mem-filter_iff mine receipts r).0 kept in
          record {
            receipt = r;
            recorded = old;
            for_plan = (eq_iff r.distribution_plan_id plan.id).0 own;
            on_channel = e;
          }),
      λ h. (includes_iff _ c).1 (
          map_mem channel (filter mine receipts) h.receipt c
            ((mem-filter_iff mine receipts h.receipt).1
              (h.recorded, (eq_iff h.receipt.distribution_plan_id plan.id).1 h.for_plan))
            h.on_channel),
    )

all_iff :
    (p : String → Bool) (xs : List String)
    → (all p xs ≡ true) ↔ ((c : String) → Memᴰ c xs → p c ≡ true)
all_iff p xs = (each xs, every xs)
  where
    each : (ys : List String) → all p ys ≡ true → (c : String) → Memᴰ c ys → p c ≡ true
    each [] h c m = elim m [ ]
    each (y ∷ ys) h c (Memᴰ.head e) = ground arith
    each (y ∷ ys) h c (Memᴰ.tail m) = each ys (ground arith) c m

    every : (ys : List String) → ((c : String) → Memᴰ c ys → p c ≡ true) → all p ys ≡ true
    every [] h = refl
    every (y ∷ ys) h = ground (arith, h y (Memᴰ.head refl), every ys (λ c m. h c (Memᴰ.tail m)))

not_empty : (xs : List String) (c : String) → includes xs c ≡ true → is_empty xs ≡ false
not_empty [] c h = absurd (ground arith)
not_empty (x ∷ xs) c h = refl

decide_published :
    (done channels : List String)
    → channels ≢ []
    → ((if is_empty done
          then channels_selected
          else if all (includes done) channels
          then published
          else partially_published)
        ≡ published)
      ↔ (all (includes done) channels ≡ true)
decide_published done [] h = absurd (h refl)
decide_published done (c ∷ cs) h = ((λ e. ground arith), λ e. ground (arith, not_empty done c))

-- A plan with channels is PUBLISHED exactly when each of its channels has a receipt for the plan.
pub published_iff :
    (plan : DistributionPlan) (receipts : List PublicationReceipt)
    → plan.channel_ids ≢ []
    → (derive_publication_status (some plan) receipts ≡ published)
      ↔ ((c : String) → Memᴰ c plan.channel_ids → HasReceipt plan receipts c)
unfolding derive_publication_status
published_iff plan receipts some_channel =
    let done = published_channel_ids plan receipts in
    let (to_all, from_all) = decide_published done plan.channel_ids some_channel in
    let (to_each, from_each) = all_iff (includes done) plan.channel_ids in
    (
      (λ h c m. (published_channel_ids_iff plan receipts c).0 (to_each (to_all h) c m)),
      λ h. from_all (from_each λ c m. (published_channel_ids_iff plan receipts c).1 (h c m)),
    )

published_channel_ids-append :
    (plan : DistributionPlan) (receipts more : List PublicationReceipt)
    → published_channel_ids plan (receipts ++ more)
      ≡ published_channel_ids plan receipts ++ published_channel_ids plan more
unfolding published_channel_ids
published_channel_ids-append plan [] more = refl
published_channel_ids-append plan (r ∷ rs) more =
    ground (arith, published_channel_ids-append plan rs more)

includes-append_left :
    (xs ys : List String) (c : String) → includes xs c ≡ true → includes (xs ++ ys) c ≡ true
includes-append_left [] ys c h = absurd (ground arith)
includes-append_left (x ∷ xs) ys c h = ground (arith, includes-append_left xs ys c)

all_grows :
    (xs ys channels : List String)
    → all (includes xs) channels ≡ true
    → all (includes (xs ++ ys)) channels ≡ true
all_grows xs ys channels h =
    (all_iff (includes (xs ++ ys)) channels).1
      λ c m. includes-append_left xs ys c ((all_iff (includes xs) channels).0 h c m)

is_empty_shrinks : (xs ys : List String) → is_empty (xs ++ ys) ≡ true → is_empty xs ≡ true
is_empty_shrinks [] ys h = refl
is_empty_shrinks (x ∷ xs) ys h = absurd (ground arith)

abbrev pub rank : PublicationStatus → ℕ
rank packaged = 0
rank channels_selected = 1
rank partially_published = 2
rank published = 3

-- A further receipt never takes the status back.
pub status_monotone :
    (plan : Option DistributionPlan) (receipts more : List PublicationReceipt)
    → rank (derive_publication_status plan receipts)
      ≤ rank (derive_publication_status plan (receipts ++ more))
unfolding derive_publication_status
status_monotone none receipts more = omega arith
status_monotone (some plan) receipts more =
    let done = published_channel_ids plan receipts in
    let extra = published_channel_ids plan more in
    rw (published_channel_ids-append plan receipts more)
      (ground (arith, all_grows done extra plan.channel_ids, is_empty_shrinks done extra))
