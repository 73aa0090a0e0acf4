-- ===== src/Response/Records/Review.antt =====
-- EventReviewDraft of flood_system/response_workflow/models.py. Its texts are templates over what it
-- keeps here, and are left out, with its status, which is "draft" always.
use flood_agent.Base.{ℕ, List, Ident, Time}
use flood_agent.Response.Enums.{TaskStatus}

-- `process_metrics`. The completion rate is the quotient of `completed_tasks` and `task_count`.
pub record ProcessMetrics : Type 0 where
  pub alert_versions : ℕ
  pub candidate_objects : ℕ
  pub confirmed_objects : ℕ
  pub task_count : ℕ
  pub completed_tasks : ℕ
  pub feedback_count : ℕ
  pub duplicates_merged : ℕ
  pub escalation_count : ℕ
  pub evidence_complete_feedback : ℕ

-- The lines of `build_review_recommendations`.
pub data Recommendation : Type 0 where
  review_deadlines update_resources keep_deduplication settle_tasks keep_practice : Recommendation

pub record EventReviewDraft : Type 0 where
  pub review_id : Ident
  pub event_id : Ident
  pub process_metrics : ProcessMetrics
  -- the entries and the escalations that the lines of these lists are about
  pub key_decisions : List Ident
  pub delays_and_escalations : List Ident
  -- the number of the tasks with source evidence, in `evidence_findings`
  pub sourced_tasks : ℕ
  pub unresolved_issues : List (Ident × TaskStatus)
  pub improvement_recommendations : List Recommendation
  pub source_timeline_entry_ids : List Ident
  pub generated_by : Ident
  pub created_at : Time
