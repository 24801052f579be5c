-- ===== src/Jobs.antt =====
-- The limits on jobs over SSH (server/ssh/job-policy.mjs). A value that is read is nothing, a natural number,
-- or a value that no limit may have.
use aliangboard.Base.{ℕ, ◌≤◌, String, ◌&&◌, if◌then◌else◌, leb, arith}
use aliangboard.Terminal.{Setting, unset, number, not_number}

pub record JobPolicy : Type 0 where
  pub ttl_min : ℕ
  pub max_per_server : ℕ

abbrev pub clamp : Setting → ℕ → ℕ → ℕ → ℕ
clamp unset lo hi fallback = fallback
clamp (number n) lo hi fallback = if leb lo n && leb n hi then n else fallback
clamp not_number lo hi fallback = fallback

-- The setting, then the environment, then the built-in value.
abbrev pub read_limit : (String → Setting) → (String → Setting) → String → String → ℕ → ℕ → ℕ → ℕ
read_limit get env key env_key lo hi built_in =
    clamp (get key) lo hi (clamp (env env_key) lo hi built_in)

unfoldable pub resolve_job_policy : (String → Setting) → (String → Setting) → JobPolicy
resolve_job_policy get env = record {
  ttl_min = read_limit get env "ssh.job.ttlMin" "SSH_JOB_TTL_MIN" 1 10080 120;
  max_per_server = read_limit get env "ssh.job.maxPerServer" "SSH_JOB_MAX_PER_SERVER" 1 16 4;
}

clamp-bounds :
    (s : Setting) (lo hi fallback : ℕ)
    → lo ≤ fallback
    → fallback ≤ hi
    → (lo ≤ clamp s lo hi fallback) × (clamp s lo hi fallback ≤ hi)
clamp-bounds unset lo hi fallback low high = (low, high)
clamp-bounds (number n) lo hi fallback low high = (ground arith, ground arith)
clamp-bounds not_number lo hi fallback low high = (low, high)

-- The limits are within their ranges, whatever the settings and the environment hold.
pub resolve_job_policy-bounds :
    (get env : String → Setting)
    → let p = resolve_job_policy get env in
      (1 ≤ p.ttl_min) × (p.ttl_min ≤ 10080) × (1 ≤ p.max_per_server) × (p.max_per_server ≤ 16)
unfolding resolve_job_policy
resolve_job_policy-bounds get env =
    let (a, b) = clamp-bounds (env "SSH_JOB_TTL_MIN") 1 10080 120 (omega arith) (omega arith) in
    let (c, d) = clamp-bounds (env "SSH_JOB_MAX_PER_SERVER") 1 16 4 (omega arith) (omega arith) in
    let (e, f) = clamp-bounds (get "ssh.job.ttlMin") 1 10080 _ a b in
    let (g, h) = clamp-bounds (get "ssh.job.maxPerServer") 1 16 _ c d in (e, f, g, h)
