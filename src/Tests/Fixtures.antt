-- ===== src/Tests/Fixtures.antt =====
-- A council of three seats, a request of each kind, and a digest that is the same for every input.
use mihver.Prelude.{String, none, some, List, [], ◌∷◌, true}
use mihver.Json.{null}
use mihver.Council.Types.{
  RiskClass, created, voting, approve, Seat, CouncilConfig, Request, ExpectedContext, Commitment,
  ProposalContent, Proposal, Candidate, Vote, Session,
}
use mihver.Council.Hashes.{Sha}

abbrev pub zeros : String
zeros = "0000000000000000000000000000000000000000000000000000000000000000"

abbrev pub hash : String
hash = "sha256:0000000000000000000000000000000000000000000000000000000000000000"

abbrev pub head : String
head = "0123456789abcdef0123456789abcdef01234567"

abbrev pub fixed_sha : Sha
fixed_sha input = zeros

abbrev seat : String → String → Seat
seat id provider = record {
  seat_id = id;
  provider = provider;
  model_family = "m";
  model_id = "x";
  is_well_formed = true;
  council_epoch_id = "e";
}

abbrev pub seats : List Seat
seats = seat "a" "p" ∷ seat "b" "q" ∷ seat "c" "r" ∷ []

abbrev pub config : CouncilConfig
config = record { epoch_id = "e"; seats = seats }

abbrev pub request : RiskClass → Request
request risk = record {
  decision_request_id = "d";
  task_id = "t";
  risk_class = risk;
  context_hash = hash;
  repository_head = head;
  council_epoch_id = "e";
  rotation_ordinal = 0;
  is_well_formed = true;
}

abbrev pub expected : ExpectedContext
expected = record { context_hash = hash; repository_head = head }

abbrev pub commitment : Commitment
commitment = record {
  decision_request_id = "d";
  seat_id = "a";
  council_epoch_id = "e";
  commitment_hash = hash;
}

abbrev pub content : ProposalContent
content = record { summary = "s"; payload = null }

abbrev pub proposal : Proposal
proposal = record {
  decision_request_id = "d";
  seat_id = "a";
  council_epoch_id = "e";
  proposal_content = content;
}

abbrev candidate : RiskClass → Candidate
candidate risk = record {
  body = record {
    decision_request_id = "d";
    task_id = "t";
    risk_class = risk;
    context_hash = hash;
    repository_head = head;
    council_epoch_id = "e";
    proposer_seat_id = "a";
    candidate_ordinal = 0;
    proposal_content = content;
  };
  candidate_hash = hash;
}

abbrev pub approval_of_seat : String → Vote
approval_of_seat id = record {
  decision_request_id = "d";
  candidate_hash = hash;
  seat_id = id;
  council_epoch_id = "e";
  vote_value = approve;
}

-- A session that `createSession` has just admitted.
abbrev pub new_session : RiskClass → Session
new_session risk = record {
  state = created;
  decision_request = request risk;
  council_config = config;
  expected_proposer_seat_id = "a";
  commitment = none;
  proposal = none;
  candidate_decision = none;
  votes = [];
  decision_record = none;
  transition_log = [];
}

-- A session in which some seats have approved; its log is left out.
abbrev pub voting_session : RiskClass → List Vote → Session
voting_session risk votes = record {
  state = voting;
  decision_request = request risk;
  council_config = config;
  expected_proposer_seat_id = "a";
  commitment = some commitment;
  proposal = some proposal;
  candidate_decision = some (candidate risk);
  votes = votes;
  decision_record = none;
  transition_log = [];
}
