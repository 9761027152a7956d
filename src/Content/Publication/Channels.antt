-- ===== src/Content/Publication/Channels.antt =====
-- Channels enter a content package one at a time.
use geoplane.Base.{
  String, false, ◌≡◌, refl, sym, ◌∙◌, ◌↔◌, inl, inr, ◌==◌, List, [], ◌∷◌, ◌++◌, Memᴰ, arith, eq_iff,
  includes, includes_iff, Bool-cases, ◌||◌,
}
use geoplane.Content.Publication.{
  ChannelNeutralContentBlock, ChannelNeutralContentPackage, PublishPackage,
  ChannelNeutralContentPackageIdentity, create_channel_neutral_content_package, add_target_channel,
}

-- Selecting channels in turn.
pub add_target_channels : ChannelNeutralContentPackage → List String → ChannelNeutralContentPackage
add_target_channels pkg [] = pkg
add_target_channels pkg (c ∷ cs) = add_target_channels (add_target_channel pkg c) cs

abbrev pub NoRepeat : List String → Type 0
NoRepeat [] = Unit
NoRepeat (x ∷ xs) = (includes xs x ≡ false) × NoRepeat xs

includes-snoc :
    (xs : List String) (y c : String) → includes (xs ++ y ∷ []) c ≡ includes xs c || y == c
includes-snoc [] y c = ground arith
includes-snoc (x ∷ xs) y c = ground (arith, includes-snoc xs y c)

NoRepeat-snoc :
    (xs : List String) (y : String) → includes xs y ≡ false → NoRepeat xs → NoRepeat (xs ++ y ∷ [])
NoRepeat-snoc [] y h n = (refl, tt)
NoRepeat-snoc (x ∷ xs) y h n = (
  ground (arith, includes-snoc xs y x, eq_iff x y, eq_iff y x),
  NoRepeat-snoc xs y (ground arith) n.1,
)

add_target_channel-includes :
    (pkg : ChannelNeutralContentPackage) (x c : String)
    → includes (add_target_channel pkg x).target_channel_ids c
      ≡ includes pkg.target_channel_ids c || x == c
unfolding add_target_channel
add_target_channel-includes pkg x c =
    ground (arith, includes-snoc pkg.target_channel_ids x c, eq_iff x c)

add_target_channel-NoRepeat :
    (pkg : ChannelNeutralContentPackage) (x : String)
    → NoRepeat pkg.target_channel_ids
    → NoRepeat (add_target_channel pkg x).target_channel_ids
unfolding add_target_channel
add_target_channel-NoRepeat pkg x n = elim (Bool-cases (includes pkg.target_channel_ids x)) [
  | inl old ↦ rw old n
  | inr new ↦ rw new (NoRepeat-snoc pkg.target_channel_ids x new n)
]

add_target_channels_lem :
    (pkg : ChannelNeutralContentPackage) (cs : List String) (c : String)
    → NoRepeat pkg.target_channel_ids
    → NoRepeat (add_target_channels pkg cs).target_channel_ids
      × (includes (add_target_channels pkg cs).target_channel_ids c
          ≡ includes pkg.target_channel_ids c || includes cs c)
unfolding add_target_channels
add_target_channels_lem pkg [] c n = (n, ground arith)
add_target_channels_lem pkg (x ∷ cs) c n =
    let (kept, e) =
      add_target_channels_lem (add_target_channel pkg x) cs c
        (add_target_channel-NoRepeat pkg x n) in
    (kept, ground (arith, e, add_target_channel-includes pkg x c))

-- A new content package has no channel. After channels are selected in turn it has exactly those
-- that were selected, each once.
pub selected_channels :
    (pkg : PublishPackage) (blocks : List ChannelNeutralContentBlock)
    (identity : ChannelNeutralContentPackageIdentity) (cs : List String) (c : String)
    → let made = create_channel_neutral_content_package pkg blocks identity in
      let chosen = add_target_channels made cs in
      (made.target_channel_ids ≡ [])
      × NoRepeat chosen.target_channel_ids
      × (Memᴰ c chosen.target_channel_ids ↔ Memᴰ c cs)
unfolding create_channel_neutral_content_package
selected_channels pkg blocks identity cs c =
    let made = create_channel_neutral_content_package pkg blocks identity in
    let chosen = (add_target_channels made cs).target_channel_ids in
    let (once, e) = add_target_channels_lem made cs c tt in
    (
      refl,
      once,
      (
        (λ m. (includes_iff cs c).0 (sym e ∙ (includes_iff chosen c).1 m)),
        λ m. (includes_iff chosen c).0 (e ∙ (includes_iff cs c).1 m),
      ),
    )
