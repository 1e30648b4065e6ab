-- ===== src/Database/Scores.antt =====
-- upsert_risk_score, get_risk_score
use insider_threat_detection.Common.{
  ℕ, ◌+◌, String, ◌≡◌, inl, inr, Bool, ◌&&◌, Option, none, some, List, [], ◌∷◌, ◌++◌, map, arith,
  ◌==◌, eq_iff, if◌then◌else◌, Option-cases, select, any, first, update_where, first-select-append,
  any-first,
}
use insider_threat_detection.Database.{Env, utcnow, cutoff, RiskRow, Db}

abbrev of_host : String → RiskRow → Bool
of_host hostname r = r.hostname == hostname

abbrev score_or_zero : Option RiskRow → ℕ
score_or_zero none = 0
score_or_zero (some r) = r.score

unfoldable pub get_risk_score : String → Db → ℕ
get_risk_score hostname db = score_or_zero (first (select (of_host hostname) db.risk_scores))

abbrev add_score : Env → String → ℕ → Option RiskRow → List RiskRow → List RiskRow
add_score env hostname delta_score (some row) rows =
    update_where (of_host hostname)
      (λ r. record r {
        score = row.score + delta_score;
        window_end = utcnow env;
        updated_at = utcnow env;
      })
      rows
add_score env hostname delta_score none rows =
    rows
    ++ record {
      id = env.fresh (map (λ r. r.id) rows);
      hostname = hostname;
      score = delta_score;
      window_start = cutoff env 86400;
      window_end = utcnow env;
      updated_at = utcnow env;
    }
      ∷ []

unfoldable pub upsert_risk_score : Env → String → ℕ → Db → Db
upsert_risk_score env hostname delta_score db = record db {
  risk_scores =
      add_score env hostname delta_score (first (select (of_host hostname) db.risk_scores))
        db.risk_scores;
}

module _ (env : Env) (host other : String) where
  score-update_where :
      (score : ℕ) (rows : List RiskRow)
      → score_or_zero (
          first (
            select (of_host other) (
              update_where
                (of_host host)
                (λ r. record r { score = score; window_end = utcnow env; updated_at = utcnow env })
                rows)))
        ≡ (if host == other && any (of_host host) rows
            then score
            else score_or_zero (first (select (of_host other) rows)))
  score-update_where score [] = ground arith
  score-update_where score (r ∷ rs) = ground (
    arith,
    score-update_where score rs,
    eq_iff r.hostname host,
    eq_iff r.hostname other,
    eq_iff host other,
  )

  -- A delta is added to the host's score and to no other, whenever it comes.
  pub get_risk_score-upsert_risk_score :
      (delta : ℕ) (db : Db)
      → get_risk_score other (upsert_risk_score env host delta db)
        ≡ (if host == other then get_risk_score host db + delta else get_risk_score other db)
  unfolding get_risk_score upsert_risk_score
  get_risk_score-upsert_risk_score delta db =
      elim (Option-cases (first (select (of_host host) db.risk_scores))) [
        | inl e ↦ rw e (rw first-select-append (ground (arith, e, eq_iff host other)))
        | inr (row, e) ↦ rw e (
            rw (score-update_where (row.score + delta) db.risk_scores)
              (ground (arith, any-first (of_host host) db.risk_scores, eq_iff host other)))
      ]
