-- ===== src/Examples/Content.antt =====
-- The theorems on contracts/geo-business/entities.ts at concrete inputs.
use geoplane.Base.{String, ◌≡◌, ◌≢◌, refl, ◌↔◌, ◌≤◌, some, List, [], ◌∷◌, ok, Memᴰ, get_elem?}
use mathlib.Core.Option
use geoplane.Content.Drafts.{compile_article_draft, mismatched}
use geoplane.Content.Drafts.Compile.{IsCompilable, compile_iff, compile_sections}
use geoplane.Content.Gates.{evaluate_quality_gate, passed, ArticleApproval}
use geoplane.Content.Gates.Verdict.{
  IsComplete, evaluate_quality_gate-passed_iff, IsReady, compiled_passes_iff,
}
use geoplane.Content.Publication.{
  PublicationReceipt, published, derive_publication_status, PublishPackage, publish_package_of,
  create_publication_receipt, normalized_actor_id, receipt_of, is_automatic,
  create_channel_neutral_content_package,
}
use geoplane.Base.Text.{trim, trim_start, trim_end, is_space}
use geoplane.Content.Publication.Channels.{add_target_channels, NoRepeat, selected_channels}
use geoplane.Content.Publication.Status.{HasReceipt, published_iff, rank, status_monotone}
use geoplane.Content.Publication.Receipts.{
  IsPersonal, create_publication_receipt_iff, IsPublished, all_published,
}
use geoplane.Examples.Data.{marks, brief, content, identity, article, plan, receipt}

compile_iff_example :
    ((draft : _) × (compile_article_draft brief (content ∷ []) identity ≡ ok draft))
    ↔ IsCompilable brief (content ∷ [])
compile_iff_example = compile_iff brief (content ∷ []) identity

compile_sections_example :
    (get_elem? article.sections 1
      ≡ Option.map (λ heading. record { heading = heading; order = 1 }) (get_elem? brief.outline 1))
    × (get_elem? article.source_provider_article_content_ids 1
        ≡ Option.map (λ c. c.id) (get_elem? (content ∷ []) 1))
unfolding compile_article_draft mismatched
compile_sections_example = compile_sections brief (content ∷ []) identity {draft = article} 1 refl

evaluate_quality_gate-passed_iff_example :
    ((evaluate_quality_gate article brief (record { id = "g"; evaluated_at = "t" })).outcome
      ≡ passed)
    ↔ IsComplete article brief
evaluate_quality_gate-passed_iff_example =
    evaluate_quality_gate-passed_iff article brief (record { id = "g"; evaluated_at = "t" })

compiled_passes_iff_example :
    ((evaluate_quality_gate article brief (record { id = "g"; evaluated_at = "t" })).outcome
      ≡ passed)
    ↔ IsReady brief
unfolding compile_article_draft mismatched
compiled_passes_iff_example =
    compiled_passes_iff brief (content ∷ []) identity {draft = article}
      (record { id = "g"; evaluated_at = "t" }) refl

some_channel : plan.channel_ids ≢ []
some_channel e = cc e

published_iff_example :
    (derive_publication_status (some plan) (receipt "site" ∷ []) ≡ published)
    ↔ ((c : String) → Memᴰ c plan.channel_ids → HasReceipt plan (receipt "site" ∷ []) c)
published_iff_example = published_iff plan (receipt "site" ∷ []) some_channel

status_monotone_example :
    rank (derive_publication_status (some plan) (receipt "site" ∷ []))
    ≤ rank (derive_publication_status (some plan) (receipt "site" ∷ receipt "feed" ∷ []))
status_monotone_example = status_monotone (some plan) (receipt "site" ∷ []) (receipt "feed" ∷ [])

abbrev approval : ArticleApproval
approval = record {
  id = "a1";
  client_organization_id = "acme";
  project_id = "p1";
  article_draft_id = "d1";
  approver_id = "ann";
  approved_at = "t";
  quality_gate_id = "g1";
  platform_gate_id = "g2";
  vertical_gate_id = "g3";
}

abbrev package_made : PublishPackage
package_made = publish_package_of approval article (record { id = "k"; built_at = "t" })

selected_channels_example :
    let made =
      create_channel_neutral_content_package package_made []
        (record { id = "n"; created_at = "t" }) in
    let chosen = add_target_channels made ("site" ∷ "site" ∷ []) in
    (made.target_channel_ids ≡ [])
    × NoRepeat chosen.target_channel_ids
    × (Memᴰ {A = String} "site" chosen.target_channel_ids
        ↔ Memᴰ {A = String} "site" ("site" ∷ "site" ∷ []))
selected_channels_example =
    selected_channels package_made [] (record { id = "n"; created_at = "t" }) ("site" ∷ "site" ∷ [])
      "site"

create_publication_receipt_iff_example :
    (create_publication_receipt marks plan "site" "ann" (record { id = "x"; published_at = "t" })
      ≡ ok (receipt "site"))
    ↔ (Memᴰ {A = String} "site" plan.channel_ids
        × IsPersonal (marks.to_lower_case (trim "ann"))
        × (receipt "site" ≡ receipt "site"))
create_publication_receipt_iff_example =
    create_publication_receipt_iff marks plan "site" "ann" (record { id = "x"; published_at = "t" })
      (receipt "site")

-- Both channels of the plan are published.
abbrev both : List PublicationReceipt
both = receipt "site" ∷ receipt "feed" ∷ []

each-IsPublished : (c : String) → Memᴰ c plan.channel_ids → IsPublished marks plan both c
unfolding create_publication_receipt receipt_of is_automatic normalized_actor_id trim trim_start
    trim_end is_space
each-IsPublished c (Memᴰ.head e) = rw (e) (record {
  actor_id = "ann";
  identity = record { id = "x"; published_at = "t" };
  receipt = receipt "site";
  made = refl;
  recorded = Memᴰ.head refl;
})
each-IsPublished c (Memᴰ.tail (Memᴰ.head e)) = rw (e) (record {
  actor_id = "ann";
  identity = record { id = "x"; published_at = "t" };
  receipt = receipt "feed";
  made = refl;
  recorded = Memᴰ.tail (Memᴰ.head refl);
})
each-IsPublished c (Memᴰ.tail (Memᴰ.tail m)) = elim m [ ]

all_published_example : derive_publication_status (some plan) both ≡ published
all_published_example = all_published marks plan both some_channel each-IsPublished
