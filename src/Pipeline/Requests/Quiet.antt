-- ===== src/Pipeline/Requests/Quiet.antt =====
-- The checks and refusals of the services write nothing.
use geoplane.Base.{String, List, [], ◌∷◌, Option, none, some}
use geoplane.Content.Opportunities.{HumanReviewDecision, OpportunityFamilyMember}
use geoplane.Content.Knowledge.{KeywordQuestionEntry}
use geoplane.Content.Drafts.{ArticleDraft}
use geoplane.Pipeline.Action.{Runtime, ◌>>◌}
use geoplane.Pipeline.Services.Opportunities.{
  CreateOpportunityFamilyInput, check_decision, check_members, refuse_family,
}
use geoplane.Pipeline.Services.Gates.{check_gates}
use geoplane.Pipeline.Requests.Outcomes.{
  Quiet, reads-Quiet, pure-Quiet, throw_when-Quiet, bind-Quiet,
}
use geoplane.Pipeline.Services.Knowledge.{
  refuse_package, refuse_profile, refuse_entry, refuse_entries,
}

check_decision-Quiet :
    (input : CreateOpportunityFamilyInput) (member : OpportunityFamilyMember)
    (found : Option HumanReviewDecision)
    → Quiet (check_decision input member found)
unfolding check_decision ◌>>◌
check_decision-Quiet input member none = throw_when-Quiet _ _
check_decision-Quiet input member (some decision) =
    bind-Quiet (throw_when-Quiet _ _)
      λ _. bind-Quiet (throw_when-Quiet _ _) λ _. throw_when-Quiet _ _

pub check_members-Quiet :
    (input : CreateOpportunityFamilyInput) (members : List OpportunityFamilyMember)
    → Quiet (check_members input members)
unfolding check_members ◌>>◌
check_members-Quiet input [] = pure-Quiet tt
check_members-Quiet input (member ∷ members) = bind-Quiet (reads-Quiet _) λ found.
    bind-Quiet (check_decision-Quiet input member found) λ _. check_members-Quiet input members

pub refuse_package-Quiet : (rt : Runtime) → Quiet (refuse_package rt)
unfolding refuse_package
refuse_package-Quiet rt = throw_when-Quiet _ _

pub refuse_profile-Quiet :
    (target project_id profile_id : String) → Quiet (refuse_profile target project_id profile_id)
unfolding refuse_profile
refuse_profile-Quiet target project_id profile_id =
    bind-Quiet (reads-Quiet _) λ profiles. throw_when-Quiet _ _

refuse_entry-Quiet : (found : Option KeywordQuestionEntry) → Quiet (refuse_entry found)
unfolding refuse_entry
refuse_entry-Quiet none = pure-Quiet tt
refuse_entry-Quiet (some entry) = throw_when-Quiet _ _

pub refuse_entries-Quiet :
    (entries : List KeywordQuestionEntry) (map_id : String) → Quiet (refuse_entries entries map_id)
unfolding refuse_entries ◌>>◌
refuse_entries-Quiet entries map_id = bind-Quiet (refuse_entry-Quiet _) λ _. throw_when-Quiet _ _

pub refuse_family-Quiet :
    (members : List OpportunityFamilyMember) (family_id : String)
    → Quiet (refuse_family members family_id)
unfolding refuse_family ◌>>◌
refuse_family-Quiet members family_id = bind-Quiet (throw_when-Quiet _ _) λ _. throw_when-Quiet _ _

pub check_gates-Quiet :
    (draft : ArticleDraft) (gates : List (String × String)) → Quiet (check_gates draft gates)
unfolding check_gates ◌>>◌
check_gates-Quiet draft [] = pure-Quiet tt
check_gates-Quiet draft (gate ∷ gates) =
    bind-Quiet (throw_when-Quiet _ _) λ _. check_gates-Quiet draft gates
