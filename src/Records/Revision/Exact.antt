-- ===== src/Records/Revision/Exact.antt =====
-- A grant for exactly one version of a revision: what it authorizes cannot be superseded.
use portable_runtime.Base.Result.{Result}
use portable_runtime.Records.Revision.Retry.{apply_revision-Outcome}
use portable_runtime.Records.Revision.Retry.{apply_revision-Outcome}
