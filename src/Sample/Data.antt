-- ===== src/Sample/Data.antt =====
-- A branch with two bookings, the pull requests that are known, and the state of the service.
use ugo.Base.{
  ◌≡◌, refl, String, true, false, [], ◌∷◌, none, some, any, length, ◌≤◌, arith, str_eq, Bool-cases,
  inl, inr, pos,
}
use ugo.Model.Queue.{Item, QueueDocument, has_number}
use ugo.Model.PullRequest.{Info, PullRequestDocument, no_info}
use ugo.Model.Message.{Message, item_add}
use ugo.Model.Installation.{Repository}
use ugo.Model.Http.{Response}
use ugo.Model.Notification.{accepted, broken}
use ugo.World.{Services, World}
use ugo.PullRequestManager.{pull_request_id}
use ugo.PullRequestHandler.{PullRequest}
use ugo.QueueManager.{queue_id, max_safe_integer}
use ugo.QueueManager.Bookings.{booked}
use ugo.QueueManager.Unique.{AllDistinct}
use ugo.Sample.Driver.{Table, lookup}
use ugo.Sample.Server.{server}

abbrev pub first_item : Item
first_item = record { username = "ann"; pull_request_number = 1; created_at = 10 }

abbrev pub second_item : Item
second_item = record { username = "bob"; pull_request_number = 2; created_at = 20 }

abbrev pub new_item : Item
new_item = record { username = "cid"; pull_request_number = 3; created_at = 30 }

abbrev pub main_id : String
main_id = queue_id "acme" "shop" "main"

abbrev pub queues : Table QueueDocument
queues =
    (
      main_id,
      some (record {
        owner = some "acme";
        repo = some "shop";
        queue = some (first_item ∷ second_item ∷ []);
      }),
    )
    ∷ []

abbrev pub first_info : Info
first_info = record no_info {
  installation_id = some 5;
  pull_request_number = some 1;
  title = some "Cart";
  branch = some "main";
  sha = some "abc";
}

abbrev pub second_info : Info
second_info = record first_info { pull_request_number = some 2; sha = some "def" }

abbrev pub document : Info → PullRequestDocument
document i = record { owner = some "acme"; repo = some "shop"; info = i }

abbrev pub pull_requests : Table PullRequestDocument
pull_requests =
    (pull_request_id "acme" "shop" 1, some (document first_info))
    ∷ (pull_request_id "acme" "shop" 2, some (document second_info))
    ∷ []

abbrev pub shop : Repository
shop = record {
  full_name = some "acme/shop";
  permissions = some (record { push = some true; pull = some true; admin = none });
}

abbrev pub merged_pull_request : PullRequest
merged_pull_request = record {
  title = "Cart";
  html_url = "https://git.example/1";
  assignees = [];
  number = 1;
  base_owner = "acme";
  base_repo = "shop";
  base_ref = "main";
  author = "ann";
  head_sha = "abc";
  merged = true;
  merged_by = some "bob";
}

abbrev pub answer : Response
answer = record {
  rate_limit_remaining = some 60;
  token = some "t";
  check_runs = some [];
  check_suites = some (some "success" ∷ []);
  state = some "success";
  login = some "ann";
  client_id = some "app";
  created_at = some "2017-01-01T00:00:00Z";
  updated_at = some "2018-01-01T00:00:00Z";
  total_count = some 1;
  repositories = some (shop ∷ []);
  pull_request = some merged_pull_request;
}

abbrev pub added : Message
added = item_add "acme" "shop" "main" second_item (pos 1)

-- A service to which GitHub answers, and one to which it does not.
abbrev pub running : Services
running = server (some answer) (accepted (some "n2"))

abbrev pub cut_off : Services
cut_off = server none broken

abbrev pub state : World running
state = record {
  online = true;
  refusing = false;
  queues = queues;
  pull_requests = pull_requests;
  notifications = [];
  installations = [];
  installation_infos = [];
  tokens = [];
  triggers = [];
  metrics = [];
  pushes = [];
  requests = [];
  published = added ∷ [];
  log = [];
}

pub state-AllDistinct : AllDistinct running state
unfolding lookup
state-AllDistinct k = elim (Bool-cases (str_eq main_id k)) [
  | inl here ↦ rw here (refl, (refl, tt))
  | inr elsewhere ↦ rw elsewhere tt
]

pub booked-main : booked running state main_id ≡ first_item ∷ second_item ∷ []
unfolding lookup
booked-main = refl

pub present-first : any (has_number 1) (booked running state main_id) ≡ true
unfolding lookup
present-first = refl

pub new-third : any (has_number 3) (booked running state main_id) ≡ false
unfolding lookup
new-third = refl

pub short-main : length (booked running state main_id) ≤ max_safe_integer
unfolding lookup
short-main = omega arith
