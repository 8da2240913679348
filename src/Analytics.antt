-- ===== src/Analytics.antt =====
-- analytics.js: a request is reported to Google Analytics when its response ends. The module
-- universal-analytics is left out: what is sent is recorded.
use mathlib.Core.List.{append-nil, append_assoc}
use ugo.Base.{
  ap, sym, ◌∙◌, ◌≡◌, ℕ, zero, suc, String, List, [], ◌∷◌, ◌++◌, Option, none, some, concat,
}

-- What is read of a request.
pub record TrackedRequest : Type 0 where
  pub username : Option String
  pub ip : String
  pub protocol : String
  pub hostname : String
  pub original_url : String
  pub user_agent : Option String

pub record Pageview : Type 0 where
  pub user_id : String
  pub ip_override : String
  pub user_agent_override : Option String
  pub hit_type : String
  pub document_location_url : String

-- How many functions of this file `res.end` stands for, each of which keeps the one before it; the
-- chunks with which express's own `end` was called, and the pageviews that were sent.
pub record TrackedResponse : Type 0 where
  pub trackers : ℕ
  pub ended : List String
  pub pageviews : List Pageview

abbrev pub or_unknown : Option String → String
or_unknown none = "unknown"
or_unknown (some u) = u

unfoldable pub pageview : TrackedRequest → Pageview
pageview r = record {
  user_id = or_unknown r.username;
  ip_override = r.ip;
  user_agent_override = r.user_agent;
  hit_type = "pageview";
  document_location_url = concat (r.protocol ∷ "://" ∷ r.hostname ∷ r.original_url ∷ []);
}

-- `trackRequest`: `res.end` is wrapped.
unfoldable pub track_request : TrackedResponse → TrackedResponse
track_request res = record res { trackers = suc res.trackers }

-- `res.end(chunk)`: a wrapper puts the `end` before it back, calls it, and sends the pageview.
abbrev end_by : ℕ → TrackedRequest → String → TrackedResponse → TrackedResponse
end_by zero r chunk res = record res { trackers = zero; ended = res.ended ++ chunk ∷ [] }
end_by (suc n) r chunk res =
    let res' = end_by n r chunk res in record res' { pageviews = res'.pageviews ++ pageview r ∷ [] }

unfoldable pub end_response : TrackedRequest → String → TrackedResponse → TrackedResponse
end_response r chunk res = end_by res.trackers r chunk res

abbrev pub end_each : TrackedRequest → List String → TrackedResponse → TrackedResponse
end_each r [] res = res
end_each r (chunk ∷ chunks) res = end_each r chunks (end_response r chunk res)

-- The pageview of a request, some times.
abbrev pub views : ℕ → TrackedRequest → List Pageview
views zero r = []
views (suc n) r = views n r ++ pageview r ∷ []

end_by_lem :
    (n : ℕ) (r : TrackedRequest) (chunk : String) (res : TrackedResponse)
    → end_by n r chunk res ≡ record {
      trackers = 0;
      ended = res.ended ++ chunk ∷ [];
      pageviews = res.pageviews ++ views n r;
    }
end_by_lem zero r chunk res =
    ap (λ vs. record { trackers = 0; ended = res.ended ++ chunk ∷ []; pageviews = vs })
      (sym (append-nil res.pageviews))
end_by_lem (suc n) r chunk res =
    ap {A = TrackedResponse} {B = TrackedResponse}
      (λ res'. record res' { pageviews = res'.pageviews ++ pageview r ∷ [] })
      (end_by_lem n r chunk res)
    ∙ ap (λ vs. record { trackers = 0; ended = res.ended ++ chunk ∷ []; pageviews = vs })
        (append_assoc res.pageviews (views n r) (pageview r ∷ []))

later_ends :
    (r : TrackedRequest) (chunks cs : List String) (vs : List Pageview)
    → end_each r chunks (record { trackers = 0; ended = cs; pageviews = vs })
      ≡ record { trackers = 0; ended = cs ++ chunks; pageviews = vs }
unfolding end_response
later_ends r [] cs vs =
    ap (λ ds. record { trackers = 0; ended = ds; pageviews = vs }) (sym (append-nil cs))
later_ends r (chunk ∷ chunks) cs vs =
    later_ends r chunks (cs ++ chunk ∷ []) vs
    ∙ ap (λ ds. record { trackers = 0; ended = ds; pageviews = vs })
        (append_assoc cs (chunk ∷ []) chunks)

-- However often the response of a tracked request is ended, every chunk is passed on to express in
-- its order, and one pageview of the request is sent for each time that the response was tracked.
pub end_each-track_request :
    (r : TrackedRequest) (chunk : String) (chunks : List String) (res : TrackedResponse)
    → end_each r (chunk ∷ chunks) (track_request res) ≡ record {
      trackers = 0;
      ended = res.ended ++ chunk ∷ chunks;
      pageviews = res.pageviews ++ views (suc res.trackers) r;
    }
unfolding track_request end_response
end_each-track_request r chunk chunks res =
    ap (end_each r chunks) (end_by_lem (suc res.trackers) r chunk (track_request res))
    ∙ later_ends r chunks (res.ended ++ chunk ∷ []) (res.pageviews ++ views (suc res.trackers) r)
    ∙ ap
        (λ cs. record {
          trackers = 0;
          ended = cs;
          pageviews = res.pageviews ++ views (suc res.trackers) r;
        })
        (append_assoc res.ended (chunk ∷ []) chunks)
