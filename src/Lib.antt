-- ===== src/Lib.antt =====
-- ugo, the server of Branch Bookkeeper: users book a place in the queue of a branch, and the check
-- runs of their pull requests on GitHub follow the queue.
--
-- The parts of the program and how they interact. Requests of GitHub arrive at
-- routes-webhook.js, behind the test of their signature (validator-signature-github.js); requests of the
-- front end at routes-queue.js and routes-pullrequest.js, behind authenticator-github.js, which asks
-- manager-token.js for the user of a token, manager-installation.js for the installation of an owner, and
-- manager-installation-info.js for the repositories that the user sees there; what GitHub answers is stored.
-- The routes call the queue manager and the handler of pull requests. The queue manager
-- (manager-queue.js) keeps a document with a list of bookings for each branch, and publishes a message
-- on a bus (postal) for every change. The callbacks of handler-event-queue.js receive the message, set
-- statuses and publish notifications and metrics. The handler of pull requests (handler-pullrequest.js)
-- reacts to GitHub's events, keeps what is known of a pull request by manager-pullrequest.js, and sets
-- statuses by github.js, which sends requests to the GitHub API. handler-notification-push.js sends and
-- cancels the push notifications that messages ask for, by OneSignal; handler-notification-pusher.js and
-- manager-metrics.js pass updates of a queue and metrics on to Pusher and Datadog.
--
-- index.js puts the routers together and turns errors into responses, with analytics.js before them, and
-- manager-mongo.js holds the connection to the database. The scripts in migrations make the collections,
-- and tools/updatePullRequestInfo.js is run by hand to repair what is known of a branch.
--
-- Base: names and lemmas that all modules share: Boolean tests, lists over native numbers, texts.
-- Mongo: the mongodb driver, a parameter: a record of a collection's operations, with the behaviour
--   that its documentation states as a record of laws. `stored` is what lies under an `_id`.
-- Model: the data. Queue, PullRequest, Notification, Installation and User have the documents of the
--   six collections and the filters, updates and projections that the source writes, with the documented
--   meaning of their operators; Message has the messages of the bus, Http the requests to GitHub, Event
--   and Webhook what GitHub sends, Notification also the requests to OneSignal, and Outside what is sent
--   to Pusher and Datadog. Reply: what is done with the response to a request.
-- World: the services that are parameters (collections, GitHub's and OneSignal's answers, localised
--   texts, the clock, the environment), and the state: does the database answer, is there one that rejects
--   what is asked of it, the collections, and the requests, triggers, metrics, messages and errors so far.
-- Promise: a promise is a function from a state to a result or a failure with the state after it; `then`,
--   `catch`, `Promise.all`, publishing, logging and requests. Keeps: relations that promises keep. Requests:
--   how many requests a promise sends.
-- QueueManager: manager-queue.js, one function for each method under its name in snake case. Bookings
--   sees its writes as writes to a list, Effects and Queries state the operations by it, Unique,
--   Refinement and Order state sequences of calls, Ids and Shared the `_id` of a queue.
-- PullRequestManager: manager-pullrequest.js in the same way.
-- InstallationManager, InstallationInfoManager, TokenManager: manager-installation.js,
--   manager-installation-info.js and manager-token.js in the same way; Effects has what they store and
--   answer, InstallationInfoManager/Ids the `_id` of what is stored for an installation and a token, and Named that
--   its installation is the one in the `_id`.
-- Authenticator: authenticator-github.js; Laws says who is let through, Frame what is left as it
--   was, Again what a second request does.
-- GitHub: github.js; Accounts has the requests for users, installations and single pull requests, the
--   others the check runs and the combined status (getCombinedStatus in CombinedStatus).
-- PullRequestHandler: handler-pullrequest.js; the handlers of events stand in Handlers.
-- QueueEvents: handler-event-queue.js, with its subscriptions as the function `subscribers`.
-- NotificationManager, NotificationHandler: manager-notification-push.js, handler-notification-push.js;
--   Delay is about the time at which a notification is to be sent.
-- PusherHandler, MetricsManager: handler-notification-pusher.js, manager-metrics.js.
-- QueueRoutes: routes-queue.js and routes-pullrequest.js, with the replies of a request as values; Api
--   puts them behind the authenticator, Access says who can change what, Answers with which statuses, and Bounds how
--   often GitHub is asked; what Joi makes of a body
--   (validator-queue.js) is a parameter.
-- Webhook: routes-webhook.js and validator-signature-github.js. Chain has the first tests, Button, Events
--   and Installations the handlers, Route the chain of all; Cases: what holds of every reply that a
--   handler makes holds of the chain; Replied has the replies, Answered, Signature, Uninstall and Closed state what it does.
-- Server: the part of index.js that answers a client, the handler of errors included. Analytics: the
--   tracked response of analytics.js.
-- MongoManager: manager-mongo.js; Connection relates `enabled` and `getCollection` from the start of the
--   program on, by which `online` and `refusing` of World stand for both; Reset says what reset leaves.
-- Migrations: the scripts in migrations, their commands as data. UpdateTool: tools/updatePullRequestInfo.js;
--   Kept and Asked say what it leaves as it was and what it asks of GitHub.
-- Service: the requests and the deliveries of messages as steps, in any order; Channel follows an update of a
--   queue to the channel of its readers; Invariant has what every step keeps, and Revoked what is known of an
--   installation after its repositories changed.
-- Sample: a database in memory with the laws of Mongo, and each result at a concrete state.
--
-- Bounds. Numbers are natural numbers; an index that may be -1 is an integer. getItems asks for at most
-- Number.MAX_SAFE_INTEGER items, which stands as a hypothesis where all of them are meant. `decimal`
-- writes a number with one more unit of fuel than its value, which is more than it has digits. There is
-- no other fuel.
--
-- Simplifications. A promise runs to its end before another starts: what `Promise.all` starts runs in
-- the order of its list, and a callback of the bus runs after the call that published its message. A
-- failure of a promise that nobody waits for is lost. A value that `then` passes to nobody is left
-- out. What is thrown before there is a promise is a rejection, but in routes-webhook.js, where
-- express passes it on. The headers of a response are left out. A booking has the three keys that the
-- routes accept.
--
-- A database that answers does so for the whole of a request, and one that refuses rejects every query
-- of it; `online` says the first, `refusing` the second, and `enabled` is true of both. A step of
-- Service changes them between two requests.
--
-- What the libraries do beyond their documented laws is left out: a collection that answers fails only where
-- its laws say so, jsonwebtoken signs with the key of the environment, an answer of GitHub that comes has the keys that GitHub documents, and a document expires in no
-- step. A key that an object of a webhook always has is not optional in the model.
--
-- Not modelled: the token of jsonwebtoken and the headers of a request but `authorization` and those of
-- the webhook; the schema that Joi checks in validator-queue.js; the set-up of express, Rollbar, New Relic,
-- the log and the localised texts (index.js, logger.js, newrelic.js, manager-localization.js); the console
-- output of the scripts and the code with which the tool exits; the mock server. These are only set-up of
-- third-party services, input and output.
pub mod Analytics
pub mod Base
pub mod Mongo
pub mod MongoManager
pub mod Migrations
pub mod Model
pub mod World
pub mod Promise
pub mod Keeps
pub mod Requests
pub mod QueueManager
pub mod PullRequestManager
pub mod GitHub
pub mod PullRequestHandler
pub mod QueueEvents
pub mod NotificationManager
pub mod NotificationHandler
pub mod InstallationManager
pub mod TokenManager
pub mod Authenticator
pub mod InstallationInfoManager
pub mod Reply
pub mod QueueRoutes
pub mod Webhook
pub mod UpdateTool
pub mod PusherHandler
pub mod MetricsManager
pub mod Service
pub mod Server
pub mod Sample
