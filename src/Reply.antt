-- ===== src/Reply.antt =====
-- What is done with the response to a request: data, a text or a status is sent, or an error goes to
-- `next`, one of http-errors by its status or the failure of a promise.
use ugo.Base.{ℕ, String, List}
use ugo.Model.Queue.{Item}
use ugo.Model.PullRequest.{Info}
use ugo.World.{Failure}

pub data Reply : Type 0 where
  sent_items : List Item → Reply
  sent_infos : List Info → Reply
  sent_channel : String → Reply
  sent_text : String → Reply
  sent_status : ℕ → Reply
  next_status : ℕ → Reply
  next_failure : Failure → Reply
