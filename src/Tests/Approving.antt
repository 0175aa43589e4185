-- ===== src/Tests/Approving.antt =====
-- Requests for approvals on concrete data.
use remote_agent_devbox.Common.{
  ◌≡◌, refl, none, [], ◌∷◌, ok, Ensures, string_eq, nat_eq, ◌>>=◌, find_row, exists,
}
use remote_agent_devbox.Schema.Artifact.{artifact_status_eq}
use remote_agent_devbox.Schema.Approval.{ApprovalRequest, ApprovalStatus, approval_status_eq}
use remote_agent_devbox.Schema.Database.{Database}
use remote_agent_devbox.Names.{decimal, is_sha256_digest}
use remote_agent_devbox.ApprovalRequests.{Readings, request}
use remote_agent_devbox.ApprovalRequests.Repeated.{request-request}
use remote_agent_devbox.Tests.Data.{approval}
use remote_agent_devbox.Tests.Reviews.{platform, with_review, checked_review}

abbrev requestable : Database
requestable = record with_review { approval_requests = [] }

abbrev first : Readings
first = record { id = "first"; requested_at = 20 }

abbrev second : Readings
second = record { id = "second"; requested_at = 50 }

abbrev first_request : ApprovalRequest
first_request = record approval {
  id = "first";
  review_digest = checked_review.review_digest;
  validator_profile_digest = checked_review.validator_profile_digest;
  status = ApprovalStatus.pending;
  expires_at = 600020;
  decided_by = none;
  decided_at = none;
}

request_succeeds :
    request platform 600 first "review" "owner" requestable
    ≡ (ok first_request, record requestable { approval_requests = first_request ∷ [] })
unfolding request approval_status_eq decimal is_sha256_digest nat_eq string_eq platform ◌>>=◌
    find_row exists
request_succeeds = refl

request-request_example :
    Ensures
      (λ a db'. request platform 600 second "review" "other" db' ≡ (ok a, db'))
      (λ _ db'. db' ≡ requestable)
      (request platform 600 first "review" "owner")
      requestable
request-request_example =
    request-request platform 600 first second "review" "owner" "other" requestable
