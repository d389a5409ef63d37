-- ===== src/Parse.antt =====
-- amizone/internal/parse: what the pages of the portal hold.
pub mod Session
pub mod LoginForm
pub mod Clean
pub mod Schedule
pub mod Wifi
pub mod Feedback
pub mod Attendance
pub mod Library
pub mod Courses
pub mod Examinations
pub mod Profiles
pub mod FeedbackForm
