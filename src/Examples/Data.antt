-- ===== src/Examples/Data.antt =====
-- The test data: a host, actors, and the records of one client organization.
use geoplane.Base.{
  ℕ, zero, suc, leb, String, Bool, true, false, ◌≡◌, refl, ap, Option, none, some, List, [], ◌∷◌,
}
use geoplane.Base.Host.{Host, ReadsDates}
use geoplane.Tenancy.Entities.{
  AuthorizationContext, OrganizationType, PlatformRole, platform_super_admin, agency_operator,
  client_owner,
}
use geoplane.Content.Drafts.{
  ArticleBrief, RiskLevel, ProviderArticleContent, ArticleDraft, ArticleDraftCompilationIdentity,
  compiled,
}
use geoplane.Content.Publication.{DistributionPlan, PublicationReceipt}
use geoplane.Pipeline.Stores
use geoplane.Pipeline.Action.{Runtime, World}

-- A host whose times are texts of as many marks as there are milliseconds.
unfoldable pub tally : ℕ → String
tally zero = String.[]
tally (suc n) = String.◌∷◌ "|" (tally n)

unfoldable pub count : String → ℕ
count String.[] = zero
count (String.◌∷◌ c s) = suc (count s)

pub count-tally : (n : ℕ) → count (tally n) ≡ n
unfolding count tally
count-tally zero = refl
count-tally (suc n) = ap suc (count-tally n)

abbrev pub marks : Host
marks = record {
  to_iso_string = tally;
  get_time = λ s. some (count s);
  locale_leb = λ a b. leb (count a) (count b);
  to_lower_case = λ s. s;
  sha256_hex = λ s. s;
}

pub marks-ReadsDates : ReadsDates marks
marks-ReadsDates ms = ap some (count-tally ms)

abbrev context : PlatformRole → Option String → List String → Bool → AuthorizationContext
context role pinned allowed admin = record {
  actor_user_id = "u1";
  actor_role = role;
  organization_id = "home";
  organization_type = OrganizationType.client;
  active_project_id = none;
  active_client_organization_id = pinned;
  assigned_client_organization_ids = allowed;
  allowed_client_organization_ids = allowed;
  is_platform_admin = admin;
  permissions = [];
}

abbrev pub owner : AuthorizationContext
owner = context client_owner (some "acme") ("other" ∷ []) false

abbrev pub operator : AuthorizationContext
operator = context agency_operator none ("acme" ∷ []) false

abbrev pub admin : AuthorizationContext
admin = context platform_super_admin none [] true

abbrev pub brief : ArticleBrief
brief = record {
  id = "b1";
  client_organization_id = "acme";
  project_id = "p1";
  opportunity_family_id = "f1";
  planning_context = some (record {
    opportunity_family_id = "f1";
    authorizing_human_review_decision_ids = "r1" ∷ [];
    target_keywords = "geo" ∷ [];
    risk_level = RiskLevel.standard;
  });
  working_title = "Title";
  outline = "Intro" ∷ "End" ∷ [];
  created_at = "t";
}

abbrev pub content : ProviderArticleContent
content = record {
  id = "c1";
  client_organization_id = "acme";
  project_id = "p1";
  article_brief_id = "b1";
  provider_response_envelope_id = "e1";
  received_at = "t";
}

abbrev pub identity : ArticleDraftCompilationIdentity
identity = record { id = "d1"; version = 1; compiled_at = "t" }

abbrev pub article : ArticleDraft
article = compiled brief (content ∷ []) identity

abbrev pub plan : DistributionPlan
plan = record {
  id = "plan";
  client_organization_id = "acme";
  project_id = "p1";
  channel_neutral_content_package_id = "n1";
  channel_ids = "site" ∷ "feed" ∷ [];
  selected_by_actor_id = "ann";
  selected_at = "t";
}

abbrev pub receipt : String → PublicationReceipt
receipt channel = record {
  id = "x";
  client_organization_id = "acme";
  project_id = "p1";
  distribution_plan_id = "plan";
  channel_id = channel;
  published_by_actor_id = "ann";
  published_at = "t";
}

abbrev pub runtime : Runtime
runtime = record { host = marks; time_at = λ n. n; id_at = tally; created_by_user_id = some "u0" }

abbrev pub start : World
start = record { ticks = 0; issued = 1; stores = Stores.empty }
